-- ===== src/Elf/Loading.antt =====
-- `elf_load_seg` of lib/elfloader.c puts a segment in place.
use spring_os.Base.{
  ℕ, zero, suc, ◌+◌, ◌-◌, ◌*◌, ◌/◌, ◌%◌, ◌^◌, ◌<◌, ◌≤◌, ◌≡◌, ◌≢◌, ◌⊎◌, inl, inr, refl, true, false,
  ◌&&◌, some, ltb, leb, ◌==◌, min, max, arith, Bool-cases,
}
use spring_os.Base.Run.{when, Ensures, returned, Ensures-bind}
use spring_os.Elf.{
  Phdr, page_size, round_down, seg_offset, first_part, load_file, load_rest, elf_load_seg,
}
use spring_os.Elf.Image.{Image, with_page, place, byte, Progress, Progress-file, Progress-rest}

-- No address of the segment or of the page behind it is 2^32 or more.
pub record Fits (ph : Phdr) : Type 0 where
  pub file_fits : ph.p_vaddr + ph.p_filesz + page_size ≤ 2 ^ 32
  pub memory_fits : ph.p_vaddr + ph.p_memsz + page_size ≤ 2 ^ 32

abbrev pub seg_size : Phdr → ℕ
seg_size ph = max ph.p_filesz ph.p_memsz

seg_offset-mod : (ph : Phdr) → seg_offset ph ≡ ph.p_vaddr % page_size
unfolding seg_offset round_down
seg_offset-mod ph = omega arith

-- The whole segment is in place, and no other page is changed.
pub record Loaded (binary : ℕ → ℕ) (ph : Phdr) (bin : ℕ) (img : Image) (u : Image) : Type 0 where
  pub content : (k : ℕ) → k < seg_size ph → u (ph.p_vaddr + k) ≡ some (byte binary ph bin k)
  pub outside :
      (a : ℕ)
      → (a / page_size < ph.p_vaddr / page_size)
        ⊎ (ph.p_vaddr + seg_size ph ≤ a / page_size * page_size)
      → u a ≡ img a

module _ (binary : ℕ → ℕ) (ph : Phdr) (bin : ℕ) (img : Image) (fits : Fits ph) where
  -- The loops stand at `i`: at the start of a page, or at the end.
  record At (i : ℕ) (u : Image) : Type 0 where
    progress : Progress binary ph bin img i u
    ready : ((ph.p_vaddr + i) % page_size ≡ 0) ⊎ (i ≡ seg_size ph)
    tight : i < seg_size ph + page_size

  At-aligned : (i : ℕ) (u : Image) → At i u → i < seg_size ph → (ph.p_vaddr + i) % page_size ≡ 0
  At-aligned i u at lt = elim (at.ready) [
    | inl aligned ↦ aligned
    | inr end ↦ absurd (omega (arith, end, lt))
  ]

  At-page :
      (i : ℕ) (u v : Image)
      → At i u
      → i < seg_size ph
      → Progress binary ph bin img (i + page_size) v
      → At (i + page_size) v
  At-page i u v at lt p = record {
    progress = p;
    ready = inl (let aligned = At-aligned i u at lt in omega (arith, aligned));
    tight = omega (arith, lt);
  }

  At-Loaded : (i : ℕ) (u : Image) → At i u → seg_size ph ≤ i → Loaded binary ph bin img u
  At-Loaded i u at le = record {
    content = λ k lt. at.progress.content k (omega (arith, lt, le));
    outside = λ a o. elim o [
      | inl below ↦ at.progress.outside a (inl below)
      | inr above ↦ at.progress.outside a (
          inr (elim (at.ready) [
            | inl aligned ↦ let t = at.tight in omega (arith, aligned, above, t)
            | inr end ↦ omega (arith, end, above)
          ]))
    ];
  }

  load_file-At :
      (rounds i : ℕ) (u : Image)
      → At i u
      → ph.p_filesz ≤ i + rounds * page_size
      → Ensures
          (λ j v. At j v × (ph.p_filesz ≤ j))
          (λ _ _. ⊥)
          (load_file (place binary) ph bin rounds i u)
  unfolding load_file
  load_file-At zero i u at enough =
      let stop : ltb i ph.p_filesz ≡ false = ground arith in
      rw stop (returned (at, omega (arith, enough)))
  load_file-At (suc rounds) i u at enough = elim (Bool-cases (ltb i ph.p_filesz)) [
    | inr stop ↦ rw stop (returned (at, ground arith))
    | inl more ↦
        let lt : i < ph.p_filesz = ground arith in
        let lt' : i < seg_size ph = omega (arith, lt) in
        let here : (ph.p_vaddr + i) % 2 ^ 32 ≡ ph.p_vaddr + i = omega (arith, fits.file_fits, lt) in
        let next : (i + page_size) % 2 ^ 32 ≡ i + page_size = omega (arith, fits.file_fits, lt) in
        rw (more, here, next)
          (load_file-At rounds (i + page_size) _
            (At-page i u _ at lt'
              (Progress-file binary ph bin img i (At-aligned i u at lt') u at.progress))
            (omega (arith, enough)))
  ]

  load_rest-Loaded :
      (rounds i : ℕ) (u : Image)
      → At i u
      → ph.p_filesz ≤ i
      → ph.p_memsz ≤ i + rounds * page_size
      → Ensures
          (λ _ v. Loaded binary ph bin img v)
          (λ _ _. ⊥)
          (load_rest (place binary) ph bin rounds i u)
  unfolding load_rest
  load_rest-Loaded zero i u at behind enough =
      let stop : ltb i ph.p_memsz ≡ false = ground arith in
      rw stop (returned (At-Loaded i u at (omega (arith, behind, enough))))
  load_rest-Loaded (suc rounds) i u at behind enough = elim (Bool-cases (ltb i ph.p_memsz)) [
    | inr stop ↦ rw stop (
        returned
          (At-Loaded i u at (let le : ph.p_memsz ≤ i = ground arith in omega (arith, behind, le))))
    | inl more ↦
        let lt : i < ph.p_memsz = ground arith in
        let lt' : i < seg_size ph = omega (arith, lt) in
        let here : (ph.p_vaddr + i) % 2 ^ 32 ≡ ph.p_vaddr + i =
          omega (arith, fits.memory_fits, lt) in
        let next : (i + page_size) % 2 ^ 32 ≡ i + page_size = omega (arith, fits.memory_fits, lt) in
        rw (more, here, next)
          (load_rest-Loaded rounds (i + page_size) _
            (At-page i u _ at lt' (
              Progress-rest binary ph bin img i (At-aligned i u at lt') u at.progress
                (min (ph.p_memsz - i) page_size) behind))
            (omega (arith, behind)) (omega (arith, enough)))
  ]

  first_page : Image
  first_page =
      with_page binary ph.p_vaddr (seg_offset ph) (some bin)
        (min ph.p_filesz (page_size - seg_offset ph)) img

  -- A segment that does not start a page fills its first page, or has nothing behind its file part.
  module _ (unaligned : seg_offset ph ≢ 0)
      (whole : (page_size - seg_offset ph ≤ ph.p_filesz) ⊎ (ph.p_memsz ≤ ph.p_filesz)) where
    first_page-At : At (min ph.p_filesz (page_size - seg_offset ph)) first_page
    unfolding first_page
    first_page-At =
        let off = seg_offset-mod ph in
        record {
          progress = record {
            content = λ k lt.
                let here : ((ph.p_vaddr + k) / page_size == ph.p_vaddr / page_size) ≡ true =
                  ground (arith, off, lt) in
                let at : (ph.p_vaddr + k) % page_size ≡ seg_offset ph + k =
                  omega (arith, off, lt) in
                let tests : (leb (seg_offset ph) (seg_offset ph + k)
                      && ltb (seg_offset ph + k)
                          (seg_offset ph + min ph.p_filesz (page_size - seg_offset ph)))
                    ≡ true =
                  ground (arith, lt) in
                let source : bin + (seg_offset ph + k - seg_offset ph) ≡ bin + k = omega arith in
                let file : ltb k ph.p_filesz ≡ true = ground (arith, lt) in
                rw (here, at, tests, source, file) refl;
            outside = λ a o.
                let other : (a / page_size == ph.p_vaddr / page_size) ≡ false = elim o [
                  | inl below ↦ ground arith
                  | inr above ↦
                      let far : ph.p_vaddr / page_size < a / page_size =
                        omega (arith, off, unaligned, above) in
                      ground arith
                ] in
                rw other refl;
          };
          ready = elim (Bool-cases (leb (page_size - seg_offset ph) ph.p_filesz)) [
            | inl full ↦
                let le : page_size - seg_offset ph ≤ ph.p_filesz = ground arith in
                inl (omega (arith, off, le))
            | inr part ↦ inr (elim whole [
              | inl le ↦ ground arith
              | inr le ↦
                  let lt : ph.p_filesz < page_size - seg_offset ph = ground arith in
                  omega (arith, le, lt)
            ])
          ];
          tight = omega arith;
        }

  start-At : seg_offset ph ≡ 0 → At 0 img
  unfolding seg_offset round_down
  start-At aligned = record {
    progress = record { content = λ k lt. absurd (omega (arith, lt)); outside = λ a o. refl };
    ready = inl (omega (arith, aligned));
    tight = omega arith;
  }

  -- For a segment that ends, with a page behind it, below 2^32, and that starts a page, or fills
  -- its first page from the file, or has nothing behind its file part: `elf_load_seg`, with a
  -- mapper that never fails and puts in a page of zeros with the bytes copied, leaves the bytes
  -- of the file followed by zeros at the addresses of the segment, and changes no page but those
  -- that the segment touches.
  pub elf_load_seg-Loaded :
      (seg_offset ph ≡ 0) ⊎ (page_size - seg_offset ph ≤ ph.p_filesz) ⊎ (ph.p_memsz ≤ ph.p_filesz)
      → Ensures
          (λ _ u. Loaded binary ph bin img u)
          (λ _ _. ⊥)
          (elf_load_seg (place binary) ph bin img)
  unfolding elf_load_seg first_part when first_page
  elf_load_seg-Loaded whole = elim (Bool-cases (seg_offset ph == 0)) [
    | inl aligned ↦
        let z : seg_offset ph ≡ 0 = ground arith in
        rw (aligned) (
          Ensures-bind (load_file-At (ph.p_filesz / page_size + 1) 0 img (start-At z) (omega arith))
            (λ i u h. load_rest-Loaded (ph.p_memsz / page_size + 1) i u h.0 h.1 (omega arith)))
    | inr unaligned ↦
        let ne : seg_offset ph ≢ 0 = ground arith in
        rw unaligned (
          Ensures-bind
            (load_file-At (ph.p_filesz / page_size + 1)
              (min ph.p_filesz (page_size - seg_offset ph)) first_page
              (first_page-At ne (elim whole [ inl z ↦ absurd (ne z) | inr h ↦ h ])) (omega arith))
            (λ i u h. load_rest-Loaded (ph.p_memsz / page_size + 1) i u h.0 h.1 (omega arith)))
  ]
