-- ===== src/Env/Ids.antt =====
-- Environment identifiers (`mkenvid` and `envid2env` of kern/env.c): an identifier holds the index of
-- its environment, differs between generations, and gives access only where it should.
use spring_os.Base.{
  ℕ, ◌*◌, ◌/◌, ◌%◌, ◌^◌, ◌<◌, ◌≡◌, ◌≢◌, refl, ◌⊎◌, inl, inr, Bool, true, false, not, ◌||◌, some,
  sym, ap, ◌∙◌, arith, ◌==◌, if◌then◌else◌, Bool-cases,
}
use spring_os.Base.Run.{bad_env, Cmd, pure, fail, ◌>>=◌, ok, Ensures, returned, failed}
use spring_os.Base.Bits.{bit_or-div, bit_or-zero, bit_or-low_zero}
use spring_os.Kernel.{Kernel, Env, status_free, current, get_env}
use spring_os.Env.{nenv, envx, make_id, may_control, envid2env}

-- The two parts of an identifier.
make_id-high : (i e : ℕ) → i < 2 ^ 21 → e < nenv → make_id i e / 2 ^ 11 ≡ i
unfolding make_id
make_id-high i e small index =
    let a : i * 2 ^ 11 % 2 ^ 32 / 2 ^ 11 ≡ i = omega arith in
    let b : e / 2 ^ 11 ≡ 0 = omega arith in
    rw (bit_or-div 11 (i * 2 ^ 11 % 2 ^ 32) e, a, b, bit_or-zero i)

-- The identifier of environment `e` leads back to `e`.
pub envx-make_id : (i e : ℕ) → e < nenv → envx (make_id i e) ≡ e
unfolding envx make_id
envx-make_id i e index =
    let a : i * 2 ^ 11 % 2 ^ 32 % 2 ^ 10 ≡ 0 = omega arith in
    rw (bit_or-low_zero 10 (i * 2 ^ 11 % 2 ^ 32) e a) (omega arith)

-- The identifiers of two environments below 1024 in two generations below 2^21 are equal only if
-- both the environments and the generations are, and the identifier in a positive generation is
-- not 0.
pub make_id-distinct :
    (i j e f : ℕ)
    → 0 < i
    → i < 2 ^ 21
    → j < 2 ^ 21
    → e < nenv
    → f < nenv
    → (make_id i e ≡ make_id j f → (i ≡ j) × (e ≡ f)) × (make_id i e ≢ 0)
make_id-distinct i j e f pos p q a b = (
  λ h. (
    omega (arith, make_id-high i e p a, make_id-high j f q b, h),
    sym (envx-make_id i e a) ∙ ap envx h ∙ envx-make_id j f b,
  ),
  λ h. omega (arith, make_id-high i e p a, h),
)

-- Environment `i` is what `envid` names for the caller `c`: 0 names the caller itself, any other
-- identifier a live environment, which under `checkperm` is the caller or a child of it.
pub record Named (k : Kernel) (c envid : ℕ) (checkperm : Bool) (i : ℕ) : Type 0 where
  pub zero_is_caller : envid ≡ 0 → i ≡ c
  pub index : envid ≢ 0 → i ≡ envx envid
  pub live : envid ≢ 0 → (k.envs i).env_status ≢ status_free
  pub same_id : envid ≢ 0 → (k.envs i).env_id ≡ envid
  pub controlled :
      envid ≢ 0
      → checkperm ≡ true
      → ((k.envs i).env_id ≡ (k.envs c).env_id) ⊎ ((k.envs i).env_parent_id ≡ (k.envs c).env_id)

-- The tests of `envid2env` on the environment that the index names.
abbrev looked_up : Kernel → ℕ → Bool → Cmd Kernel ℕ
looked_up k envid checkperm =
    let x = k.envs (envx envid) in
    if (x.env_status == status_free) || not (x.env_id == envid)
    then fail bad_env
    else if checkperm
    then (do
      c ← current
      cur ← get_env c
      if may_control cur x then pure (envx envid) else fail bad_env)
    else pure (envx envid)

refused_control :
    (cur x : Env)
    → may_control cur x ≡ false
    → (x.env_id ≡ cur.env_id) ⊎ (x.env_parent_id ≡ cur.env_id)
    → ⊥
unfolding may_control
refused_control cur x h own = ground arith

module _ (k : Kernel) (c envid : ℕ) (ne : envid ≢ 0) where
  not-Named :
      (checkperm : Bool)
      → (((k.envs (envx envid)).env_status == status_free)
          || not ((k.envs (envx envid)).env_id == envid))
        ≡ true
      → (i : ℕ) → ¬ (Named k c envid checkperm i)
  not-Named checkperm bad i n =
      let st = rw (n.index ne) at (n.live ne) in
      let id = rw (n.index ne) at (n.same_id ne) in ground arith

  is-Named :
      (checkperm : Bool)
      → (((k.envs (envx envid)).env_status == status_free)
          || not ((k.envs (envx envid)).env_id == envid))
        ≡ false
      → (checkperm ≡ true → may_control (k.envs c) (k.envs (envx envid)) ≡ true)
      → Named k c envid checkperm (envx envid)
  unfolding may_control
  is-Named checkperm good ctl = record {
    zero_is_caller = λ h. absurd (ne h);
    index = λ h. refl;
    live = λ h. ground arith;
    same_id = λ h. ground arith;
    controlled = λ h t. ground (arith, ctl t);
  }

  envid2env-other :
      (checkperm : Bool)
      → current k ≡ ok c k
      → Ensures
          (λ i l. Named k c envid checkperm i × (l ≡ k))
          (λ e l. (e ≡ bad_env) × (l ≡ k) × ((i : ℕ) → ¬ (Named k c envid checkperm i)))
          (looked_up k envid checkperm k)
  unfolding get_env
  envid2env-other checkperm cur =
      elim (Bool-cases (
        ((k.envs (envx envid)).env_status == status_free)
        || not ((k.envs (envx envid)).env_id == envid))) [
          | inl bad ↦ rw bad (failed (refl, refl, not-Named checkperm bad))
          | inr good ↦ elim (Bool-cases checkperm) [
            | inr free ↦ rw (good, free) (returned (is-Named false good (λ h. cc), refl))
            | inl perm ↦ elim (Bool-cases (may_control (k.envs c) (k.envs (envx envid)))) [
              | inl allowed ↦
                  rw (good, perm, cur, allowed) (returned (is-Named true good (λ h. allowed), refl))
              | inr refused ↦
                  rw (good, perm, cur, refused)
                    (failed (
                      refl,
                      refl,
                      λ i n.
                          let own = rw (n.index ne) at (n.controlled ne refl) in
                          refused_control (k.envs c) (k.envs (envx envid)) refused own,
                    ))
            ]
          ]
        ]

-- If there is a current environment, `envid2env` changes nothing and returns the environment
-- that the identifier names (0 the caller, another a live environment with that identifier,
-- under checkperm the caller or its child), and -E_BAD_ENV only if there is none.
pub envid2env-Named :
    (k : Kernel) (c envid : ℕ) (checkperm : Bool)
    → k.curenv ≡ some c
    → Ensures
        (λ i l. Named k c envid checkperm i × (l ≡ k))
        (λ e l. (e ≡ bad_env) × (l ≡ k) × ((i : ℕ) → ¬ (Named k c envid checkperm i)))
        (envid2env envid checkperm k)
unfolding envid2env may_control current
envid2env-Named k c envid checkperm e =
    let cur : current k ≡ ok c k = ground arith in
    elim (Bool-cases (envid == 0)) [
      | inl zero_id ↦
          rw (zero_id, cur)
            (returned (
              record {
                zero_is_caller = λ h. refl;
                index = λ h. absurd (ground arith);
                live = λ h. absurd (ground arith);
                same_id = λ h. absurd (ground arith);
                controlled = λ h. absurd (ground arith);
              },
              refl,
            ))
      | inr other ↦
          rw (other, get_env) (envid2env-other k c envid (λ h. ground arith) checkperm cur)
    ]
