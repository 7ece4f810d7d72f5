-- ===== src/Base/Memory.antt =====
-- Blocks of memory: copying and comparing them, the range of their bytes, and literals.
use Prim.Native.Nat.{ℕ, zero, suc, ◌+◌, ◌≤◌, ◌<◌}
use Prim.Native.Char.{code}
use Prim.Native.String.{String}
use mathlib.Core.Path.{◌≡◌, refl, sym, ap, ◌∙◌}
use mathlib.Core.Logic.{◌↔◌}
use mathlib.Core.Bool.{Bool, true, false, ◌&&◌}
use mathlib.Core.List.{List, [], ◌∷◌, ◌++◌, append_assoc}
use native.Mathlib.Omega.{arith}
use loco.Base.Lists.{
  length, set, take, drop, length-append, length-take, length-drop, length-set, take-append-drop,
  drop-drop,
}
use loco.Base.Tests.{◌==◌}

-- The bytes of a literal of ASCII.
abbrev pub codes : String → List ℕ
codes String.[] = []
codes (String.◌∷◌ c s) = code c ∷ codes s

pub length_zero : (bs : List ℕ) → length bs ≡ 0 → bs ≡ []
length_zero [] e = refl
length_zero (b ∷ bs) e = absurd (omega (arith, e))

pub drop_all : (n : ℕ) (bs : List ℕ) → length bs ≤ n → drop n bs ≡ []
drop_all zero [] h = refl
drop_all zero (b ∷ bs) h = absurd (omega (arith, h))
drop_all (suc n) [] h = refl
drop_all (suc n) (b ∷ bs) h = drop_all n bs (omega (arith, h))

pub take_all : (n : ℕ) (bs : List ℕ) → length bs ≤ n → take n bs ≡ bs
take_all zero [] h = refl
take_all zero (b ∷ bs) h = absurd (omega (arith, h))
take_all (suc n) [] h = refl
take_all (suc n) (b ∷ bs) h = ap (λ t. b ∷ t) (take_all n bs (omega (arith, h)))

-- memcmp(a, b, n) == 0 on blocks of n bytes.
abbrev pub same_bytes : List ℕ → List ℕ → Bool
same_bytes [] [] = true
same_bytes [] (b ∷ bs) = false
same_bytes (a ∷ as') [] = false
same_bytes (a ∷ as') (b ∷ bs) = a == b && same_bytes as' bs

pub same_bytes_iff : (a b : List ℕ) → (same_bytes a b ≡ true) ↔ (a ≡ b)
same_bytes_iff [] [] = (λ _. refl, λ _. refl)
same_bytes_iff [] (y ∷ ys) = (λ h. cc, λ h. cc)
same_bytes_iff (x ∷ xs) [] = (λ h. cc, λ h. cc)
same_bytes_iff (x ∷ xs) (y ∷ ys) =
    (λ h. ground (arith, (same_bytes_iff xs ys).0), λ h. ground (arith, (same_bytes_iff xs ys).1))

abbrev pub AllBytes : List ℕ → Type 0
AllBytes [] = Unit {0}
AllBytes (b ∷ bs) = (b < 256) × AllBytes bs

pub AllBytes-append : (a b : List ℕ) → AllBytes (a ++ b) → AllBytes a
AllBytes-append [] b h = tt
AllBytes-append (x ∷ a) b h = (h.0, AllBytes-append a b h.1)

pub AllBytes-drop : (n : ℕ) (bs : List ℕ) → AllBytes bs → AllBytes (drop n bs)
AllBytes-drop zero bs h = h
AllBytes-drop (suc n) [] h = tt
AllBytes-drop (suc n) (b ∷ bs) h = AllBytes-drop n bs h.1

pub AllBytes-take : (n : ℕ) (bs : List ℕ) → AllBytes bs → AllBytes (take n bs)
AllBytes-take zero bs h = tt
AllBytes-take (suc n) [] h = tt
AllBytes-take (suc n) (b ∷ bs) h = (h.0, AllBytes-take n bs h.1)

-- memcpy(buffer + at, source, length of source).
abbrev pub copy_at : List ℕ → ℕ → List ℕ → List ℕ
copy_at buffer at [] = buffer
copy_at buffer at (b ∷ bs) = copy_at (set buffer at b) (at + 1) bs

pub copy_at-append :
    (at : ℕ) (pre mid post src : List ℕ)
    → at ≡ length pre
    → length mid ≡ length src
    → copy_at (pre ++ (mid ++ post)) at src ≡ pre ++ (src ++ post)
copy_at-append at pre [] post [] e h = refl
copy_at-append at pre [] post (b ∷ bs) e h = absurd (omega arith)
copy_at-append at pre (m ∷ mid) post [] e h = absurd (omega arith)
copy_at-append at pre (m ∷ mid) post (b ∷ bs) e h =
    ap (λ x. copy_at x (at + 1) bs) (set-append at pre (mid ++ post) e)
    ∙ copy_at-append (at + 1) (pre ++ b ∷ []) mid post bs
        (omega (arith, length-append pre (b ∷ []))) (omega arith)
    ∙ append_assoc pre (b ∷ []) (bs ++ post)
  where
    set-append :
        (at : ℕ) (pre t : List ℕ) → at ≡ length pre → set (pre ++ m ∷ t) at b ≡ (pre ++ b ∷ []) ++ t
    set-append zero [] t e = refl
    set-append zero (x ∷ xs) t e = absurd (omega arith)
    set-append (suc n) [] t e = absurd (omega arith)
    set-append (suc n) (x ∷ xs) t e = ap (λ r. x ∷ r) (set-append n xs t (omega arith))

pub length-copy_at : (bs : List ℕ) (at : ℕ) (src : List ℕ) → length (copy_at bs at src) ≡ length bs
length-copy_at bs at [] = refl
length-copy_at bs at (b ∷ src) = length-copy_at _ (at + 1) src ∙ length-set bs at b

-- A copy that stays inside the block replaces what stood there.
pub copy_at_lem :
    (bs : List ℕ) (at : ℕ) (src : List ℕ)
    → at + length src ≤ length bs
    → copy_at bs at src ≡ take at bs ++ (src ++ drop (at + length src) bs)
copy_at_lem bs at src h =
    ap (λ x. copy_at x at src) (sym parts)
    ∙ copy_at-append at (take at bs) (take (length src) (drop at bs)) (drop (at + length src) bs)
        src (omega (arith, length-take at bs))
        (omega (arith, length-take (length src) (drop at bs), length-drop at bs))
  where
    parts : take at bs ++ (take (length src) (drop at bs) ++ drop (at + length src) bs) ≡ bs
    parts =
        ap (λ x. take at bs ++ (take (length src) (drop at bs) ++ x))
          (sym (drop-drop at (length src) (at + length src) bs refl))
        ∙ ap (λ x. take at bs ++ x) (take-append-drop (length src) (drop at bs))
        ∙ take-append-drop at bs
