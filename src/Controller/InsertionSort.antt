-- ===== src/Controller/InsertionSort.antt =====
-- A sort of deployments for the tests: sort.Slice as an insertion sort.
use mathlib.Core.List.{Perm}
use mathlib.Core.List.Perm
use module_controller.Prelude.{Bool, arith, List, [], ◌∷◌, if◌then◌else◌, Bool-cases, inl, inr}
use module_controller.Platform.Kube.{Deployment}
use module_controller.Controller.Baseline.{created_before, IsByAge, Sorter}

put_in : (Deployment → Deployment → Bool) → Deployment → List Deployment → List Deployment
put_in less d [] = d ∷ []
put_in less d (x ∷ xs) = let rest = put_in less d xs in if less x d then x ∷ rest else d ∷ x ∷ xs

sort_by : (Deployment → Deployment → Bool) → List Deployment → List Deployment
unfolding put_in
sort_by less [] = []
sort_by less (x ∷ xs) = put_in less x (sort_by less xs)

put_in-Perm : (d : Deployment) (xs : List Deployment) → Perm (put_in created_before d xs) (d ∷ xs)
unfolding put_in
put_in-Perm d [] = Perm.refl (d ∷ [])
put_in-Perm d (x ∷ xs) = elim (Bool-cases (created_before x d)) [
  | inl before ↦ rw before (Perm.trans (Perm.cons x (put_in-Perm d xs)) (Perm.swap d x xs))
  | inr after ↦ rw after (Perm.refl (d ∷ x ∷ xs))
]

put_in-IsByAge :
    (d : Deployment) (xs : List Deployment) → IsByAge xs → IsByAge (put_in created_before d xs)
unfolding put_in
put_in-IsByAge d [] h = tt
put_in-IsByAge d (x ∷ []) h = ground arith
put_in-IsByAge d (x ∷ y ∷ rest) (h, k) = ground (arith, put_in-IsByAge d (y ∷ rest) k)

sort_by-Perm : (ds : List Deployment) → Perm (sort_by created_before ds) ds
unfolding sort_by
sort_by-Perm [] = Perm.refl []
sort_by-Perm (x ∷ xs) =
    Perm.trans (put_in-Perm x (sort_by created_before xs)) (Perm.cons x (sort_by-Perm xs))

sort_by-IsByAge : (ds : List Deployment) → IsByAge (sort_by created_before ds)
unfolding sort_by
sort_by-IsByAge [] = tt
sort_by-IsByAge (x ∷ xs) = put_in-IsByAge x (sort_by created_before xs) (sort_by-IsByAge xs)

pub insertion_sort : Sorter
insertion_sort = record {
  slice = sort_by;
  slice-Perm = sort_by-Perm;
  slice-IsByAge = sort_by-IsByAge;
}
