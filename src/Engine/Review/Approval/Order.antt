-- ===== src/Engine/Review/Approval/Order.antt =====
-- The order in which comments of the approval gate count.
use hoist.Prelude.{◌≡◌, refl, inl, inr, ◌⊎◌, true, false, Option, none, some, arith}
use hoist.Engine.Errors.{Err, Result, ok, err}
use hoist.Engine.Review.{Comment}
use hoist.Engine.Review.Approval.{is_newer_comment}

pub Result-cases : {A : Type 0} (r : Result A) → ((a : A) × (r ≡ ok a)) ⊎ ((e : Err) × (r ≡ err e))
Result-cases (ok a) = inl (a, refl)
Result-cases (err e) = inr (e, refl)

pub newer_than_none : (x : Comment) → is_newer_comment x none ≡ false → ⊥
unfolding is_newer_comment
newer_than_none x n = absurd (cc n)

-- The order of comments is transitive, on the side of "is not newer".
pub not_newer_trans :
    (r r' : Comment) (a : Option Comment)
    → is_newer_comment r (some r') ≡ false
    → is_newer_comment r' a ≡ false
    → is_newer_comment r a ≡ false
unfolding is_newer_comment
not_newer_trans r r' none h k = k
not_newer_trans r r' (some a) h k = ground arith

pub not_newer_refl : (r : Comment) → is_newer_comment r (some r) ≡ false
unfolding is_newer_comment
not_newer_refl r = ground arith

-- What is not newer than a comment is not newer than one that replaces it.
pub not_newer_than_newer :
    (c r : Comment) (a : Option Comment)
    → is_newer_comment c a ≡ true
    → is_newer_comment r a ≡ false
    → is_newer_comment r (some c) ≡ false
unfolding is_newer_comment
not_newer_than_newer c r none n h = ground arith
not_newer_than_newer c r (some a) n h = ground arith
