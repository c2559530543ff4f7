-- ===== src/Prelogin/Bools.antt =====
-- Laws of the tests that prelogin.c chains.
use dragonsunited_minecraft.Base.{Bool, true, false, not, ◌&&◌, ◌||◌, ◌≡◌, refl, if◌then◌else◌}

pub and_left : (a b : Bool) → (a && b) ≡ true → a ≡ true
and_left true b e = refl
and_left false b e = cc

pub and_right : (a b : Bool) → (a && b) ≡ true → b ≡ true
and_right true b e = e
and_right false b e = cc

pub or_right : (a b : Bool) → (a || b) ≡ true → a ≡ false → b ≡ true
or_right false b e n = e
or_right true b e n = cc

pub or_true : (a b : Bool) → b ≡ true → (a || b) ≡ true
or_true true b e = refl
or_true false b e = e

pub and_both : {a b : Bool} → a ≡ true → b ≡ true → (a && b) ≡ true
and_both e k = rw (e, k) refl

pub either_true : (a b : Bool) → (not a && not b) ≡ false → (a || b) ≡ true
either_true true b e = refl
either_true false true e = refl
either_true false false e = cc

pub no_force : (e c f : Bool) → ((e && not c) && f) ≡ false → (not e || (c || not f)) ≡ true
no_force false c f k = refl
no_force true true f k = refl
no_force true false true k = cc
no_force true false false k = refl

pub choice_true :
    {A : Type 0} {b : Bool} {x z : A} (y : A) → b ≡ true → x ≡ z → (if b then x else y) ≡ z
choice_true y e k = rw e k

pub choice_false :
    {A : Type 0} {b : Bool} {y z : A} (x : A) → b ≡ false → y ≡ z → (if b then x else y) ≡ z
choice_false x e k = rw e k
