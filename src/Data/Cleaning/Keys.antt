-- ===== src/Data/Cleaning/Keys.antt =====
-- Rows of one key.
use mathlib.Core.Path.{fun_ext}
use dealership_agent.Base.{
  ==_iff, Bool, Option, String, ap, arith, eq_iff, false, none, refl, some, true, ℕ, ◌&&◌, ◌==◌,
  ◌↔◌, ◌≡◌,
}
use dealership_agent.Data.Cleaning.{FrameRow, same_key, same_number, same_text}

same_text_iff : (s t : Option String) → (same_text s t ≡ true) ↔ (s ≡ t)
same_text_iff none none = (λ h. refl, λ e. refl)
same_text_iff none (some t) = (λ h. absurd (ground arith), λ e. absurd (ground arith))
same_text_iff (some s) none = (λ h. absurd (ground arith), λ e. absurd (ground arith))
same_text_iff (some s) (some t) =
    (λ h. ap some ((eq_iff s t).0 h), λ e. (eq_iff s t).1 (ground arith))

same_number_iff : (m n : Option ℕ) → (same_number m n ≡ true) ↔ (m ≡ n)
same_number_iff none none = (λ h. refl, λ e. refl)
same_number_iff none (some n) = (λ h. absurd (ground arith), λ e. absurd (ground arith))
same_number_iff (some m) none = (λ h. absurd (ground arith), λ e. absurd (ground arith))
same_number_iff (some m) (some n) =
    (λ h. ap some ((==_iff m n).0 h), λ e. (==_iff m n).1 (ground arith))

pub same_key_self : (a : FrameRow) → same_key a a ≡ true
same_key_self a =
    rw
      (
        (same_text_iff a.make a.make).1 refl,
        (same_text_iff a.model a.model).1 refl,
        (==_iff a.raw.year a.raw.year).1 refl,
        (same_text_iff a.raw.trim a.raw.trim).1 refl,
        (same_number_iff a.raw.mileage a.raw.mileage).1 refl,
      )
      refl

and_both : (a b : Bool) → (a && b) ≡ true → (a ≡ true) × (b ≡ true)
and_both true b h = (refl, h)
and_both false b h = absurd (ground arith)

pub same_key_alike : (a b : FrameRow) → same_key a b ≡ true → same_key a ≡ same_key b
same_key_alike a b h =
    let (m, h1) = and_both (same_text a.make b.make) _ h in
    let (n, h2) = and_both (same_text a.model b.model) _ h1 in
    let (y, h3) = and_both (a.raw.year == b.raw.year) _ h2 in
    let (t, k) = and_both (same_text a.raw.trim b.raw.trim) _ h3 in
    fun_ext (λ x.
      rw
        (
          (same_text_iff a.make b.make).0 m,
          (same_text_iff a.model b.model).0 n,
          (==_iff a.raw.year b.raw.year).0 y,
          (same_text_iff a.raw.trim b.raw.trim).0 t,
          (same_number_iff a.raw.mileage b.raw.mileage).0 k,
        )
        refl)
