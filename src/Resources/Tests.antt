-- ===== src/Resources/Tests.antt =====
-- The theorems on resources at a resource that is described.
use galaxie.Prelude.{ℕ, ◌≡◌, refl, arith, some, List, [], ◌∷◌, ◌++◌}
use galaxie.Run.{ok}
use galaxie.Resources.{
  Resource, tpe_resources_resourcedescription_get, tpe_resources_resourcedescription_msg,
}
use galaxie.Resources.Laws.{resource_body, described, resource_msg-get}

abbrev ore : List ℕ
ore = b'O' ∷ b'r' ∷ b'e' ∷ []

abbrev ore_body : List ℕ
ore_body = resource_body 3 ore ore [] [] ore 1 2 9 []

resource_msg-get_example :
    (out : List Resource) × (tpe_resources_resourcedescription_msg
        (λ rs r. rs ++ (r ∷ []))
        []
        ore_body
      ≡ ok out)
    × (tpe_resources_resourcedescription_get out 3 ≡ some (described 3 ore ore [] [] ore 1 2 9))
resource_msg-get_example =
    resource_msg-get (λ rs r. rs ++ (r ∷ [])) (λ rs r. refl) [] 3 ore ore [] [] ore 1 2 9 []
      (omega arith)
      (
        ((λ e. omega (arith, e)), ((λ e. omega (arith, e)), ((λ e. omega (arith, e)), tt))),
        omega arith,
      )
      (
        ((λ e. omega (arith, e)), ((λ e. omega (arith, e)), ((λ e. omega (arith, e)), tt))),
        omega arith,
      )
      (tt, omega arith) (tt, omega arith)
      (
        ((λ e. omega (arith, e)), ((λ e. omega (arith, e)), ((λ e. omega (arith, e)), tt))),
        omega arith,
      )
      (omega arith) (omega arith) (omega arith) 3
