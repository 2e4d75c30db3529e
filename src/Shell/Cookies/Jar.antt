-- ===== src/Shell/Cookies/Jar.antt =====
-- What the cookies of web/src/lib/cookies.ts are after one is kept or dropped.
use cadentra.Prelude.{
  Lacks, refl, ◌∙◌, inl, inr, String, [], ◌∷◌, Dict, lookup, insert, remove, lookup-insert_ne,
  lookup-remove, arith, eq_iff, ◌==◌, Bool-cases,
}
use cadentra.Shell.Cookies.Parts.{IsJar}

pub insert-IsJar :
    (k v : String) (jar : Dict String)
    → Lacks 61 k
    → Lacks 59 k
    → Lacks 59 v
    → IsJar jar
    → IsJar (insert k v jar)
unfolding insert lookup
insert-IsJar k v [] a b c h = (refl, a, b, c, tt)
insert-IsJar k v ((j, w) ∷ jar) a b c (once, sign, semi, plain, rest) = elim (Bool-cases (j == k)) [
  | inl same ↦ rw same (ground (arith, eq_iff j k), a, b, c, rest)
  | inr other ↦ rw other (
    lookup-insert_ne k j v jar (λ e. ground (arith, eq_iff j k)) ∙ once,
    sign,
    semi,
    plain,
    insert-IsJar k v jar a b c rest,
  )
]

pub remove-IsJar : (k : String) (jar : Dict String) → IsJar jar → IsJar (remove k jar)
unfolding remove
remove-IsJar k [] h = tt
remove-IsJar k ((j, w) ∷ jar) (once, sign, semi, plain, rest) = elim (Bool-cases (j == k)) [
  | inl same ↦ rw same (remove-IsJar k jar rest)
  | inr other ↦
      rw other
        (lookup-remove k j jar ∙ ground (arith, once), sign, semi, plain, remove-IsJar k jar rest)
]
