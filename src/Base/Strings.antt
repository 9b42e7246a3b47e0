-- ===== src/Base/Strings.antt =====
-- C strings.
use Prim.Native.Nat.{ℕ}
use mathlib.Core.Path.{◌≡◌, refl}
use mathlib.Core.Bool.{Bool, true, false, ◌&&◌}
use mathlib.Core.List.{List, [], ◌∷◌}
use native.Mathlib.Omega.{arith}
use neat.Base.Tests.{◌==◌}

-- A C string, by its characters.
abbrev pub String : Type 0
String = List ℕ

-- `strcmp(a, b) == 0`.
unfoldable pub same_string : String → String → Bool
same_string [] [] = true
same_string (a ∷ x) (b ∷ y) = (a == b) && same_string x y
same_string _ _ = false

pub same_string-sym : (x y : String) → same_string x y ≡ same_string y x
unfolding same_string
same_string-sym [] [] = refl
same_string-sym [] (b ∷ y) = refl
same_string-sym (a ∷ x) [] = refl
same_string-sym (a ∷ x) (b ∷ y) = ground (arith, same_string-sym x y)

-- Equal strings are the same.
pub same_string→≡ : (x y : String) → same_string x y ≡ true → x ≡ y
unfolding same_string
same_string→≡ [] [] e = refl
same_string→≡ [] (b ∷ y) e = absurd cc
same_string→≡ (a ∷ x) [] e = absurd cc
same_string→≡ (a ∷ x) (b ∷ y) e =
    let h : (a == b) ≡ true = ground (arith, e) in
    let t : same_string x y ≡ true = ground (arith, e) in
    let p : a ≡ b = ground (arith, h) in rw (p, same_string→≡ x y t) refl

pub same_string_refl : (s : String) → same_string s s ≡ true
unfolding same_string
same_string_refl [] = refl
same_string_refl (c ∷ s) = ground (arith, same_string_refl s)
