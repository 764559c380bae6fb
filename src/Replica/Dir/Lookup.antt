-- ===== src/Replica/Dir/Lookup.antt =====
-- Lookups in a directory of crates/mist-replica/src/lib.rs after an upsert or a removal.
use mist.Prelude.{
  ℕ, true, false, Option, none, some, List, [], ◌∷◌, ◌++◌, keep, bytes_eq, bytes_eq_refl,
  eq_of_bytes_eq, ◌≡◌, refl, sym, ap, ◌∙◌, arith, inl, inr, Bool-cases, Option-cases, if◌then◌else◌,
}
use mist.Proto.Types.{NodeKey, Kind, Name}
use mist.Proto.Keys.{key_eq, key_eq_iff}
use mist.Replica.Hashing.{Hashing}
use mist.Replica.Dir.{Dir, find, upsert, remove}
use mist.Replica.Dir.Slots.{ReadDirEntry, entry_named, has_name, without}
use mist.Replica.Dir.Valid.{IsWellFormed, view}
use mist.Replica.Dir.Insert.{HasRoom}
use mist.Replica.Dir.Rekind.{rekind}
use mist.Replica.Dir.Found.{found_target, find_lem}
use mist.Replica.Dir.Refine.{fresh, upsert_view, upsert-view, remove-view}

abbrev Target : Type 0
Target = Option (NodeKey × Kind)

-- What a lookup of `q` finds in a list of entries.
target_of : List ℕ → List ReadDirEntry → Target
target_of q es = found_target (entry_named q es)

or_else : Target → Target → Target
or_else none u = u
or_else (some t) u = some t

target_of-append :
    (q : List ℕ) (es : List ReadDirEntry) (x : ReadDirEntry)
    → target_of q (es ++ x ∷ [])
      ≡ or_else (target_of q es) (if has_name q x then some (x.node, x.kind) else none)
unfolding target_of entry_named or_else
target_of-append q [] x = ground arith
target_of-append q (e ∷ es) x = elim (Bool-cases (has_name q e)) [
  | inl t ↦ rw t refl
  | inr f ↦ rw f (target_of-append q es x)
]

-- An entry of the name `q` that has not the name `n`: the names differ.
names_differ :
    (n q : List ℕ) (e : ReadDirEntry)
    → has_name n e ≡ false
    → has_name q e ≡ true
    → bytes_eq n q ≡ false
names_differ n q e f t = elim (Bool-cases (bytes_eq n q)) [
  | inl y ↦
      let back : e.name.bytes ≡ n = eq_of_bytes_eq e.name.bytes q t ∙ sym (eq_of_bytes_eq n q y) in
      absurd (ground (arith, ap (λ b. bytes_eq b n) back, bytes_eq_refl n))
  | inr d ↦ d
]

target_of-without :
    (n q : List ℕ) (es : List ReadDirEntry)
    → target_of q (without n es) ≡ (if bytes_eq n q then none else target_of q es)
unfolding target_of entry_named without keep
target_of-without n q [] = ground arith
target_of-without n q (e ∷ es) = elim (Bool-cases (has_name n e)) [
  | inl t ↦
      let same : e.name.bytes ≡ n = eq_of_bytes_eq e.name.bytes n t in
      rw t (target_of-without n q es ∙ rw same (ground arith))
  | inr f ↦ elim (Bool-cases (has_name q e)) [
    | inl t ↦ let differ = names_differ n q e f t in rw (f, t, differ) refl
    | inr g ↦ rw (f, g) (target_of-without n q es)
  ]
]

rekinded : Kind → Target → Target
rekinded kind none = none
rekinded kind (some t) = some (t.0, kind)

target_of-rekind :
    (n q : List ℕ) (kind : Kind) (es : List ReadDirEntry)
    → target_of q (rekind n kind es)
      ≡ (if bytes_eq n q then rekinded kind (target_of q es) else target_of q es)
unfolding target_of entry_named rekind rekinded
target_of-rekind n q kind [] = ground arith
target_of-rekind n q kind (e ∷ es) =
    let rest = target_of-rekind n q kind es in
    elim (Bool-cases (has_name n e)) [
      | inl t ↦
          let same : e.name.bytes ≡ n = eq_of_bytes_eq e.name.bytes n t in
          elim (Bool-cases (has_name q e)) [
            | inl u ↦
                let both : bytes_eq n q ≡ true = ap (λ b. bytes_eq b q) (sym same) ∙ u in
                rw (t, u, both) refl
            | inr g ↦ rw (t, g) rest
          ]
      | inr f ↦ elim (Bool-cases (has_name q e)) [
        | inl u ↦ let differ = names_differ n q e f u in rw (f, u, differ) refl
        | inr g ↦ rw (f, g) rest
      ]
    ]

at_end : (t : Target) → or_else t none ≡ t
unfolding or_else
at_end none = refl
at_end (some x) = refl

-- The list of an upsert answers every name as a map would.
target_of-upsert_view :
    (es : List ReadDirEntry) (cookie : ℕ) (name : Name) (k : NodeKey) (kind : Kind) (q : List ℕ)
    → target_of q (upsert_view es cookie name k kind (entry_named name.bytes es)).0
      ≡ (if bytes_eq name.bytes q then some (k, kind) else target_of q es)
unfolding upsert_view or_else
target_of-upsert_view es cookie name k kind q = elim (Option-cases (entry_named name.bytes es)) [
  | inl e ↦
      let none_yet : target_of name.bytes es ≡ none = unfold target_of in rw e refl in
      rw e (
        target_of-append q es (fresh cookie name k kind)
        ∙ elim (Bool-cases (bytes_eq name.bytes q)) [
          | inl t ↦
              let same : name.bytes ≡ q = eq_of_bytes_eq name.bytes q t in
              let gone : target_of q es ≡ none = ap (λ b. target_of b es) (sym same) ∙ none_yet in
              rw (t, gone) refl
          | inr f ↦ rw f (at_end (target_of q es))
        ])
  | inr (x, e) ↦
      let known : target_of name.bytes es ≡ some (x.node, x.kind) = unfold target_of in rw e refl in
      elim (Bool-cases (key_eq x.node k)) [
        | inl t ↦
            let same_node : x.node ≡ k = (key_eq_iff x.node k).0 t in
            rw (e, t)
              (target_of-rekind name.bytes q kind es ∙ elim (Bool-cases (bytes_eq name.bytes q)) [
                | inl u ↦
                    let same : name.bytes ≡ q = eq_of_bytes_eq name.bytes q u in
                    let here : target_of q es ≡ some (x.node, x.kind) =
                      ap (λ b. target_of b es) (sym same) ∙ known in
                    rw (u, here) (unfold rekinded in ap (λ n. some (n, kind)) same_node)
                | inr g ↦ rw g refl
              ])
        | inr f ↦
            rw (e, f)
              (target_of-append q (without name.bytes es) (fresh cookie name k kind)
                ∙ rw (target_of-without name.bytes q es)
                    (elim (Bool-cases (bytes_eq name.bytes q)) [
                      | inl u ↦ rw u refl
                      | inr g ↦ rw g (at_end (target_of q es))
                    ]))
      ]
]

module _ ⦃hashing : Hashing⦄ where
  -- On a well-formed directory with room for one more name, a lookup after an upsert of a name finds
  -- the upserted node and kind under that name, and under every other name what it found before.
  pub find-upsert :
      (d : Dir) (name : Name) (k : NodeKey) (kind : Kind) (q : List ℕ)
      → IsWellFormed d
      → HasRoom d name.bytes
      → find (upsert d name k kind).0 q
        ≡ (if bytes_eq name.bytes q then some (k, kind) else find d q)
  find-upsert d name k kind q v room =
      let (v', seen) = upsert-view d name k kind v room in
      find_lem (upsert d name k kind).0 q v'
      ∙ ap (λ x. found_target (entry_named q x.0)) seen
      ∙ unfold target_of in
        target_of-upsert_view (view d) d.next_cookie name k kind q ∙ rw (find_lem d q v) refl

  -- On a well-formed directory a lookup after the removal of a name finds nothing under that name,
  -- and under every other name what it found before.
  pub find-remove :
      (d : Dir) (name q : List ℕ)
      → IsWellFormed d
      → find (remove d name).0 q ≡ (if bytes_eq name q then none else find d q)
  find-remove d name q v =
      let (v', seen, _) = remove-view d name v in
      find_lem (remove d name).0 q v'
      ∙ ap (λ es. found_target (entry_named q es)) seen
      ∙ unfold target_of in target_of-without name q (view d) ∙ rw (find_lem d q v) refl
