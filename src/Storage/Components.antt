-- ===== src/Storage/Components.antt =====
-- Paths that are joined from names without a separator, and their components.
use agro.Base.{
  ◌≡◌, refl, sym, ap, ◌∙◌, true, false, List, [], ◌∷◌, ◌++◌, arith, Text, codes, same, ◌==◌, All, ℕ,
}
use mathlib.Core.List.{append_assoc, append-nil}
use agro.Storage.{
  slash, is_absolute, ends_with_slash, join, Component, normal, pieces, component_of, components_of,
  first_component, components, all_normal, resolve_within, resolved,
}

-- A name that can be a component of its own.
pub record IsName (name : Text) : Type 0 where
  pub lacks : All (λ c. (c == slash) ≡ false) name
  pub filled : same name [] ≡ false
  pub not_dot : same name (codes ".") ≡ false
  pub not_dots : same name (codes "..") ≡ false

IsName-is_absolute : (a : Text) → IsName a → is_absolute a ≡ false
IsName-is_absolute [] n = refl
IsName-is_absolute (c ∷ a) n = n.lacks.0

ends_with_slash-append :
    (a : Text) (c : ℕ) (s : Text) → ends_with_slash (a ++ c ∷ s) ≡ ends_with_slash (c ∷ s)
unfolding ends_with_slash
ends_with_slash-append [] c s = refl
ends_with_slash-append (d ∷ []) c s = refl
ends_with_slash-append (d ∷ e ∷ a) c s = ends_with_slash-append (e ∷ a) c s

ends_with_slash-lacks : (a : Text) → All (λ c. (c == slash) ≡ false) a → ends_with_slash a ≡ false
unfolding ends_with_slash
ends_with_slash-lacks [] h = refl
ends_with_slash-lacks (c ∷ []) h = h.0
ends_with_slash-lacks (c ∷ d ∷ a) h = ends_with_slash-lacks (d ∷ a) h.1

-- Joining a name onto a path that is not empty and has no trailing separator.
join_name :
    (a b : Text)
    → same a [] ≡ false
    → ends_with_slash a ≡ false
    → is_absolute b ≡ false
    → join a b ≡ a ++ slash ∷ b
unfolding join
join_name a b filled ends relative = rw (relative, filled, ends) refl

pieces-name :
    (piece a rest : Text)
    → All (λ c. (c == slash) ≡ false) a
    → pieces piece (a ++ rest) ≡ pieces (piece ++ a) rest
unfolding pieces
pieces-name piece [] rest h = rw append-nil refl
pieces-name piece (c ∷ a) rest h = rw h.0 (
    pieces-name (piece ++ c ∷ []) a rest h.1
    ∙ ap (λ p. pieces p rest) (append_assoc piece (c ∷ []) a))

pieces-slash : (piece rest : Text) → pieces piece (slash ∷ rest) ≡ piece ∷ pieces [] rest
unfolding pieces
pieces-slash piece rest = refl

pieces-end : (piece : Text) → pieces piece [] ≡ piece ∷ []
unfolding pieces
pieces-end piece = refl

component_of_name :
    (a : Text) (rest : List Component) → IsName a → component_of a rest ≡ normal a ∷ rest
component_of_name a rest n = rw (n.filled, n.not_dot, n.not_dots) refl

ends_with_slash_name : (b : Text) → IsName b → ends_with_slash (slash ∷ b) ≡ false
unfolding ends_with_slash same
ends_with_slash_name [] n = absurd (ground (arith, n.filled))
ends_with_slash_name (c ∷ b) n = ends_with_slash-lacks (c ∷ b) n.lacks

same-append : (a : Text) (c : ℕ) (s : Text) → same (a ++ c ∷ s) [] ≡ false
unfolding same
same-append [] c s = refl
same-append (d ∷ a) c s = refl

relative-append : (a : Text) (c : ℕ) (s : Text) → IsName a → is_absolute (a ++ c ∷ s) ≡ false
unfolding same
relative-append [] c s n = absurd (ground (arith, n.filled))
relative-append (d ∷ a) c s n = n.lacks.0

resolve_within_normal :
    (root path : Text)
    → is_absolute path ≡ false
    → all_normal (components path) ≡ true
    → resolve_within root path ≡ resolved (join root path)
unfolding resolve_within components
resolve_within_normal root path relative fine =
    let fine' = rw relative at fine in rw (relative, fine') refl

module _ (a b c : Text) (na : IsName a) (nb : IsName b) (nc : IsName c) where
  abbrev pub shelf : Text
  shelf = a ++ slash ∷ (b ++ slash ∷ c)

  pub join-shelf : join (join a b) c ≡ shelf
  join-shelf =
      let first =
        join_name a b na.filled (ends_with_slash-lacks a na.lacks) (IsName-is_absolute b nb) in
      let ends = ends_with_slash-append a slash b ∙ ends_with_slash_name b nb in
      ap (λ s. join s c) first
      ∙ join_name (a ++ slash ∷ b) c (same-append a slash b) ends (IsName-is_absolute c nc)
      ∙ append_assoc a (slash ∷ b) (slash ∷ c)

  pub relative-shelf : is_absolute shelf ≡ false
  relative-shelf = relative-append a slash (b ++ slash ∷ c) na

  pieces-shelf : pieces [] shelf ≡ a ∷ b ∷ c ∷ []
  pieces-shelf =
      pieces-name [] a (slash ∷ (b ++ slash ∷ c)) na.lacks
      ∙ pieces-slash a (b ++ slash ∷ c)
      ∙ ap (λ ps. a ∷ ps)
          (pieces-name [] b (slash ∷ c) nb.lacks
            ∙ pieces-slash b c
            ∙ ap (λ ps. b ∷ ps)
                (ap (pieces []) (sym (append-nil c)) ∙ pieces-name [] c [] nc.lacks ∙ pieces-end c))

  pub components-shelf : components shelf ≡ normal a ∷ normal b ∷ normal c ∷ []
  unfolding components first_component components_of
  components-shelf =
      rw
        (
          relative-shelf, pieces-shelf, na.not_dot, na.filled, na.not_dots, nb.filled, nb.not_dot,
          nb.not_dots, nc.filled, nc.not_dot, nc.not_dots,
        )
        refl

  -- The path is accepted under any root.
  pub resolve_within-shelf : (root : Text) → resolve_within root shelf ≡ resolved (join root shelf)
  unfolding all_normal
  resolve_within-shelf root =
      resolve_within_normal root shelf relative-shelf (ap all_normal components-shelf)
