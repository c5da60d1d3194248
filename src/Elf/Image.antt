-- ===== src/Elf/Image.antt =====
-- What the mappings of lib/elfloader.c put at each address: a page takes the place of the page that
-- was there, and is zero where nothing was copied.
use spring_os.Base.{
  ℕ, ◌+◌, ◌-◌, ◌*◌, ◌/◌, ◌%◌, ◌<◌, ◌≤◌, ◌≡◌, ◌⊎◌, inl, inr, refl, ap, ◌∙◌, true, false, ◌&&◌,
  Option, none, some, ltb, leb, ◌==◌, if◌then◌else◌, min, arith, Bool-cases,
}
use spring_os.Base.Run.{ok}
use spring_os.Elf.{Phdr, Mapper, page_size}

-- The byte at each address that is mapped.
abbrev pub Image : Type 0
Image = ℕ → Option ℕ

-- The byte at place `k` of a new page.
abbrev pub page_byte : (ℕ → ℕ) → ℕ → Option ℕ → ℕ → ℕ → ℕ
page_byte binary offset none len k = 0
page_byte binary offset (some src) len k =
    if leb offset k && ltb k (offset + len) then binary (src + (k - offset)) else 0

abbrev pub with_page : (ℕ → ℕ) → ℕ → ℕ → Option ℕ → ℕ → Image → Image
with_page binary va offset src len img a =
    if a / page_size == va / page_size
    then some (page_byte binary offset src len (a % page_size))
    else img a

abbrev pub place : (ℕ → ℕ) → Mapper Image
place binary va offset perm src len img = ok tt (with_page binary va offset src len img)

-- The byte `k` of a segment: from the file, then zero.
abbrev pub byte : (ℕ → ℕ) → Phdr → ℕ → ℕ → ℕ
byte binary ph bin k = if ltb k ph.p_filesz then binary (bin + k) else 0

-- The first `i` bytes of the segment are in place, up to the end of their last page.
pub record Progress (binary : ℕ → ℕ) (ph : Phdr) (bin : ℕ) (img : Image) (i : ℕ) (u : Image)
    : Type 0 where
  pub content : (k : ℕ) → k < i → u (ph.p_vaddr + k) ≡ some (byte binary ph bin k)
  pub outside :
      (a : ℕ)
      → (a / page_size < ph.p_vaddr / page_size) ⊎ (ph.p_vaddr + i ≤ a / page_size * page_size)
      → u a ≡ img a

-- A page more, where the segment goes on at the start of a page.
module _ (binary : ℕ → ℕ) (ph : Phdr) (bin : ℕ) (img : Image) (i : ℕ)
    (aligned : (ph.p_vaddr + i) % page_size ≡ 0) where
  Progress-page :
      (u v : Image)
      → Progress binary ph bin img i u
      → ((k : ℕ) → k < page_size → v (ph.p_vaddr + i + k) ≡ some (byte binary ph bin (i + k)))
      → ((a : ℕ) → (a / page_size == (ph.p_vaddr + i) / page_size) ≡ false → v a ≡ u a)
      → Progress binary ph bin img (i + page_size) v
  Progress-page u v p new old = record {
    content = λ k lt. elim (Bool-cases (ltb k i)) [
      | inl before ↦ old (ph.p_vaddr + k) (ground arith) ∙ p.content k (ground arith)
      | inr here ↦
          let e : ph.p_vaddr + k ≡ ph.p_vaddr + i + (k - i) = ground arith in
          let e' : i + (k - i) ≡ k = ground arith in
          ap v e ∙ new (k - i) (ground arith) ∙ ap (λ x. some (byte binary ph bin x)) e'
    ];
    outside = λ a o. elim o [
      | inl below ↦ old a (ground arith) ∙ p.outside a (inl below)
      | inr above ↦ old a (ground arith) ∙ p.outside a (inr (omega (arith, above)))
    ];
  }

-- A page of the file, or a page behind it.
module _ (binary : ℕ → ℕ) (ph : Phdr) (bin : ℕ) (img : Image) (i : ℕ)
    (aligned : (ph.p_vaddr + i) % page_size ≡ 0) (u : Image)
    (p : Progress binary ph bin img i u) where
  pub Progress-file :
      Progress binary ph bin img
        (i + page_size)
        (with_page binary (ph.p_vaddr + i) 0 (some (bin + i)) (min (ph.p_filesz - i) page_size) u)
  Progress-file =
      Progress-page binary ph bin img i aligned u
        (with_page binary (ph.p_vaddr + i) 0 (some (bin + i)) (min (ph.p_filesz - i) page_size) u) p
        (λ k lt.
          let here : ((ph.p_vaddr + i + k) / page_size == (ph.p_vaddr + i) / page_size) ≡ true =
            ground arith in
          let at : (ph.p_vaddr + i + k) % page_size ≡ k = omega (arith, aligned, lt) in
          let tests : (leb 0 k && ltb k (0 + min (ph.p_filesz - i) page_size))
              ≡ ltb (i + k) ph.p_filesz =
            ground arith in
          let source : bin + i + (k - 0) ≡ bin + (i + k) = omega arith in
          rw (here, at, tests, source) refl)
        (λ a other. rw other refl)

  pub Progress-rest :
      (len : ℕ)
      → ph.p_filesz ≤ i
      → Progress binary ph bin img (i + page_size) (with_page binary (ph.p_vaddr + i) 0 none len u)
  Progress-rest len behind =
      Progress-page binary ph bin img i aligned u (with_page binary (ph.p_vaddr + i) 0 none len u) p
        (λ k lt.
          let here : ((ph.p_vaddr + i + k) / page_size == (ph.p_vaddr + i) / page_size) ≡ true =
            ground arith in
          let zero : ltb (i + k) ph.p_filesz ≡ false = ground arith in rw (here, zero) refl)
        (λ a other. rw other refl)
