-- ===== src/Db/Writer/Rate.antt =====
-- db.rs: the quota of the rate limiter that `db_writer` sets up before its loop.
use nostrd.Base.{
  ℕ, zero, suc, ◌==◌, ◌≡◌, refl, inl, inr, ◌*◌, ◌<◌, ◌%◌, ◌^◌, Option, none, some, arith,
  if◌then◌else◌, Bool-cases, ◌↔◌,
}
use nostrd.Base.Outcome.{Outcome, ok, panic}
use nostrd.Error.{Error}

-- the product of two `u32`, as in a release build
abbrev u32_mul : ℕ → ℕ → ℕ
u32_mul a b = (a * b) % 2 ^ 32

-- The quota in events a minute, if there is a limit; `NonZeroU32::new(0).unwrap()` panics.
unfoldable pub rate_quota : Option ℕ → Outcome Error (Option ℕ)
rate_quota none = ok none
rate_quota (some zero) = ok none
rate_quota (some (suc n)) =
    if u32_mul (suc n) 60 == 0 then panic else ok (some (u32_mul (suc n) 60))

wraps_iff : (n : ℕ) → ((n * 60) % 2 ^ 32 ≡ 0) ↔ (n % 2 ^ 30 ≡ 0)
wraps_iff n = (λ h. omega (arith, h), λ h. omega (arith, h))

-- Setting up a limit of a `u32` of events a second panics exactly if the limit is a positive multiple
-- of 2^30, since sixty times it is then 0.
pub rate_quota-panic_iff :
    (rps : ℕ) → rps < 2 ^ 32 → (rate_quota (some rps) ≡ panic) ↔ ((0 < rps) × (rps % 2 ^ 30 ≡ 0))
unfolding rate_quota
rate_quota-panic_iff zero small = (λ h. absurd (cc h), λ h. absurd (omega (arith, h.0)))
rate_quota-panic_iff (suc n) small = elim (Bool-cases (u32_mul (suc n) 60 == 0)) [
  | inl stops ↦
      rw stops (λ h. (omega arith, (wraps_iff (suc n)).0 (ground (arith, stops))), λ h. refl)
  | inr goes ↦
      rw goes (λ h. absurd (cc h), λ h. absurd (ground (arith, goes, (wraps_iff (suc n)).1 h.1)))
]
