-- ===== src/Go/Strings/Split.antt =====
-- Laws of `split`: where the separator stands the text is cut, and nowhere else.
use Prim.Native.Char.{Char, code}
use Prim.Native.String.{[], ◌∷◌}
use Prim.Native.String
use text.Mathlib.TextLemmas.{nil-append, cons-append}
use mathlib.Core.List
use module_controller.Prelude.{ℕ, String, ◌≡◌, ◌≢◌, refl, arith, eqb, true, false}
use module_controller.Go.Strings.{split}

-- No character of the text has this code.
abbrev pub Lacks : ℕ → String → Type 0
Lacks sep [] = Unit
Lacks sep (c ∷ s) = (code c ≢ sep) × Lacks sep s

pub Lacks-append :
    (sep : ℕ) (s t : String) → Lacks sep s → Lacks sep t → Lacks sep (String.◌++◌ s t)
Lacks-append sep [] t h k = rw nil-append k
Lacks-append sep (c ∷ s) t (p, h) k = rw cons-append (p, Lacks-append sep s t h k)

eqb_self : (n : ℕ) → eqb n n ≡ true
eqb_self n = ground arith

eqb-ne : (m n : ℕ) → m ≢ n → eqb m n ≡ false
eqb-ne m n h = ground arith

pub split_of_Lacks : (sep : ℕ) (s : String) → Lacks sep s → split sep s ≡ List.◌∷◌ s List.[]
unfolding split
split_of_Lacks sep [] h = refl
split_of_Lacks sep (c ∷ s) (p, h) = rw (eqb-ne (code c) sep p, split_of_Lacks sep s h)

pub split-append :
    (d : Char) (s t : String)
    → Lacks (code d) s
    → split (code d) (String.◌++◌ s (d ∷ t)) ≡ List.◌∷◌ s (split (code d) t)
unfolding split
split-append d [] t h = rw (nil-append, eqb_self (code d))
split-append d (c ∷ s) t (p, h) =
    rw cons-append (rw (eqb-ne (code c) (code d) p, split-append d s t h))
