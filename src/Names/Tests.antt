-- ===== src/Names/Tests.antt =====
-- Two draws of one name, and the instance of the theorem on generated names.
use aws_demo.Base.{ℕ, ◌≡◌, refl, List, [], ◌∷◌, some, arith}
use aws_demo.Text.{codes}
use aws_demo.Names.{fields, element, generate_worker_name}
use aws_demo.Names.Distinct.{generate_worker_name-injective}

abbrev draws : List ℕ
draws = 0 ∷ 1 ∷ 2 ∷ 3 ∷ 4 ∷ 5 ∷ 6 ∷ 61 ∷ 62 ∷ 63 ∷ []

generates : generate_worker_name (codes "bob bob") 0 draws ≡ some (codes "bob-ABCDEFG9_-")
unfolding generate_worker_name
generates = refl

generates_again : generate_worker_name (codes "bob bob") 1 draws ≡ some (codes "bob-ABCDEFG9_-")
unfolding generate_worker_name
generates_again = refl

generate_worker_name-injective_example :
    (element (fields (codes "bob bob")) 0 ≡ element (fields (codes "bob bob")) 1) × (draws ≡ draws)
generate_worker_name-injective_example =
    generate_worker_name-injective (codes "bob bob") 0 1 draws draws (codes "bob-ABCDEFG9_-") refl
      refl (omega arith) (omega arith) generates generates_again
