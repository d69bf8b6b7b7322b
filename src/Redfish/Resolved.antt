-- ===== src/Redfish/Resolved.antt =====
-- What the search in the tree of nodes comes to (src/core/route/redfish/node.hpp).
use obmc_yadro_webapp.Prelude.{
  ℕ, suc, ◌≡◌, refl, ◌∙◌, ap, inl, inr, Bool, true, ◌&&◌, Option, none, some, List, arith, nat_eq,
  text_eq, Bool-cases,
}
use obmc_yadro_webapp.Prelude.Text.{Text}
use obmc_yadro_webapp.Redfish.Context.{RedfishContext}
use obmc_yadro_webapp.Redfish.Actions.{Handled, done, thrown, undefined}
use obmc_yadro_webapp.Redfish.Resolver.{
  Node, node, Nodes, no_childs, child, validate_segment, match_entire_pattern, uri_resolver,
  next_child_resolver,
}
use obmc_yadro_webapp.Redfish.Matched.{
  Serves, Answers, KeepsAnswer, Answers-trans, compared-KeepsAnswer, compared-Serves,
  validate_segment-Compares,
}

-- How a path is resolved: the request and the answer are kept, and a node that is found serves the path.
unfoldable pub Resolved : List Text → RedfishContext → Handled (Option Node) → Type 0
Resolved path_info ctx (done (some m) after) = Serves path_info m after × Answers ctx after
Resolved path_info ctx (done none after) = Answers ctx after
Resolved path_info ctx (thrown after) = Answers ctx after
Resolved path_info ctx undefined = ⊥

Resolved-trans :
    (path_info : List Text) (ctx next : RedfishContext) (h : Handled (Option Node))
    → Answers ctx next
    → Resolved path_info next h
    → Resolved path_info ctx h
unfolding Resolved
Resolved-trans path_info ctx next (done (some m) after) k l =
    (l.0, Answers-trans ctx next after k l.1)
Resolved-trans path_info ctx next (done none after) k l = Answers-trans ctx next after k l
Resolved-trans path_info ctx next (thrown after) k l = Answers-trans ctx next after k l
Resolved-trans path_info ctx next undefined k l = l

behind_match :
    (path_info : List Text) (ctx : RedfishContext) (result : Handled Bool)
    (here : Bool → RedfishContext → Handled (Option Node))
    → KeepsAnswer ctx result
    → ((valid : Bool) (next : RedfishContext)
        → result ≡ done valid next
        → Resolved path_info next (here valid next))
    → Resolved path_info ctx (elim result [
      | done valid next ↦ here valid next
      | thrown failed ↦ thrown failed
      | undefined ↦ undefined
    ])
unfolding KeepsAnswer Resolved
behind_match path_info ctx (done valid next) here k h =
    Resolved-trans path_info ctx next (here valid next) k (h valid next refl)
behind_match path_info ctx (thrown failed) here k h = k
behind_match path_info ctx undefined here k h = k

found-Resolved :
    (path_info : List Text) (n : Node) (depth : ℕ) (ctx next : RedfishContext) (valid : Bool)
    → (validate_segment path_info n depth ctx).1 ≡ done valid next
    → valid ≡ true
    → match_entire_pattern path_info (validate_segment path_info n depth ctx).0 ≡ true
    → Resolved path_info next (done (some n) next)
unfolding Resolved Answers
found-Resolved path_info n depth ctx next valid e is_valid entire = (
  compared-Serves path_info n depth ctx next (validate_segment path_info n depth ctx)
      (validate_segment-Compares path_info n depth ctx) (e ∙ ap (λ b. done b next) is_valid) entire,
  (refl, refl),
)

missing-Resolved :
    (path_info : List Text) (ctx : RedfishContext) → Resolved path_info ctx (done none ctx)
unfolding Resolved Answers
missing-Resolved path_info ctx = (refl, refl)

validated-KeepsAnswer :
    (path_info : List Text) (n : Node) (depth : ℕ) (ctx : RedfishContext)
    → KeepsAnswer ctx (validate_segment path_info n depth ctx).1
validated-KeepsAnswer path_info n depth ctx =
    compared-KeepsAnswer path_info n depth ctx (validate_segment path_info n depth ctx)
      (validate_segment-Compares path_info n depth ctx)

mutual
  unfolding uri_resolver next_child_resolver

  pub uri_resolver-Resolved :
      (path_info : List Text) (n : Node) (depth : ℕ) (ctx : RedfishContext)
      → Resolved path_info ctx (uri_resolver path_info n depth ctx)
  uri_resolver-Resolved path_info (node prefixes own ns) depth ctx =
      let self = node prefixes own ns in
      let checked = validate_segment path_info self depth ctx in
      behind_match path_info ctx checked.1 _ (validated-KeepsAnswer path_info self depth ctx)
        (λ valid next e. elim (Bool-cases (valid && match_entire_pattern path_info checked.0)) [
          | inl found ↦
              rw found
                (found-Resolved path_info self depth ctx next valid e (ground arith) (ground arith))
          | inr deeper ↦ rw deeper (next_child_resolver-Resolved path_info ns (suc checked.0) next)
        ])

  next_child_resolver-Resolved :
      (path_info : List Text) (ns : Nodes) (depth : ℕ) (ctx : RedfishContext)
      → Resolved path_info ctx (next_child_resolver path_info ns depth ctx)
  next_child_resolver-Resolved path_info no_childs depth ctx = missing-Resolved path_info ctx
  next_child_resolver-Resolved path_info (child n rest) depth ctx =
      let checked = validate_segment path_info n depth ctx in
      behind_match path_info ctx checked.1 _ (validated-KeepsAnswer path_info n depth ctx)
        (λ valid next e. elim (Bool-cases valid) [
          | inr other ↦ rw other (next_child_resolver-Resolved path_info rest checked.0 next)
          | inl is_valid ↦ elim (Bool-cases (match_entire_pattern path_info checked.0)) [
            | inl entire ↦
                rw (is_valid, entire)
                  (found-Resolved path_info n depth ctx next valid e is_valid entire)
            | inr deeper ↦ rw (is_valid, deeper) (uri_resolver-Resolved path_info n checked.0 next)
          ]
        ])
