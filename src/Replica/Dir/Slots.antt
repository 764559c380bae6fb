-- ===== src/Replica/Dir/Slots.antt =====
-- The table of a directory of crates/mist-replica/src/lib.rs with its names resolved: a live entry or
-- nothing at each position.
use mist.Prelude.{
  ℕ, zero, suc, Bool, Option, none, some, List, [], ◌∷◌, ◌++◌, length, set, bytes_eq, bytes_eq_refl,
  eq_of_bytes_eq, if◌then◌else◌, ◌≡◌, ◌≢◌, refl, sym, ◌∙◌, ap, arith, Bool-cases, inl, inr, keep,
  not,
}
use mist.Proto.Types.{NodeKey, Kind, Name}
use mist.Replica.Dir.{CEnt, at, name_in, alive, node}

pub record ReadDirEntry : Type 0 where
  pub cookie : ℕ
  pub name : Name
  pub node : NodeKey
  pub kind : Kind

abbrev pub entry_in : List ℕ → CEnt → ReadDirEntry
entry_in arena e = record {
  cookie = e.cookie;
  name = record { bytes = name_in arena e };
  node = node e;
  kind = e.kind;
}

abbrev pub slot_of : List ℕ → CEnt → Option ReadDirEntry
slot_of arena e = if alive e then some (entry_in arena e) else none

abbrev pub Slots : Type 0
Slots = List (Option ReadDirEntry)

abbrev pub slots : List ℕ → List CEnt → Slots
slots arena [] = []
slots arena (e ∷ es) = slot_of arena e ∷ slots arena es

abbrev pub get_slot : Slots → ℕ → Option ReadDirEntry
get_slot [] i = none
get_slot (s ∷ sl) zero = s
get_slot (s ∷ sl) (suc i) = get_slot sl i

-- The live entries, in order.
abbrev pub cons_slot : Option ReadDirEntry → List ReadDirEntry → List ReadDirEntry
cons_slot none es = es
cons_slot (some e) es = e ∷ es

abbrev pub live_of : Slots → List ReadDirEntry
live_of [] = []
live_of (s ∷ sl) = cons_slot s (live_of sl)

abbrev pub has_name : List ℕ → ReadDirEntry → Bool
has_name name e = bytes_eq e.name.bytes name

-- The entry of a name, and the entries without a name.
unfoldable pub entry_named : List ℕ → List ReadDirEntry → Option ReadDirEntry
entry_named name [] = none
entry_named name (e ∷ es) =
    let rest = entry_named name es in if has_name name e then some e else rest

unfoldable pub without : List ℕ → List ReadDirEntry → List ReadDirEntry
without name es = keep (λ e. not (has_name name e)) es

-- No two live positions have one name.
abbrev pub Distinct : Slots → Type 0
Distinct sl =
    (i j : ℕ) (a b : ReadDirEntry)
    → get_slot sl i ≡ some a
    → get_slot sl j ≡ some b
    → a.name.bytes ≡ b.name.bytes
    → i ≡ j

pub Distinct-tail : (s : Option ReadDirEntry) (sl : Slots) → Distinct (s ∷ sl) → Distinct sl
Distinct-tail s sl d i j a b p q e = omega (arith, d (suc i) (suc j) a b p q e)

pub get_slot-slots :
    (arena : List ℕ) (es : List CEnt) (i : ℕ)
    → get_slot (slots arena es) i ≡ slot_of arena (at es i)
get_slot-slots arena [] i = refl
get_slot-slots arena (e ∷ es) zero = refl
get_slot-slots arena (e ∷ es) (suc i) = get_slot-slots arena es i

pub slots-append :
    (arena : List ℕ) (es fs : List CEnt) → slots arena (es ++ fs) ≡ slots arena es ++ slots arena fs
slots-append arena [] fs = refl
slots-append arena (e ∷ es) fs = ap (λ l. slot_of arena e ∷ l) (slots-append arena es fs)

pub slots-set :
    (arena : List ℕ) (es : List CEnt) (i : ℕ) (e : CEnt)
    → slots arena (set es i e) ≡ set (slots arena es) i (slot_of arena e)
slots-set arena [] i e = refl
slots-set arena (x ∷ es) zero e = refl
slots-set arena (x ∷ es) (suc i) e = ap (λ l. slot_of arena x ∷ l) (slots-set arena es i e)

pub length-slots : (arena : List ℕ) (es : List CEnt) → length (slots arena es) ≡ length es
length-slots arena [] = refl
length-slots arena (e ∷ es) = ap suc (length-slots arena es)

cons_slot-append :
    (s : Option ReadDirEntry) (a b : List ReadDirEntry) → cons_slot s (a ++ b) ≡ cons_slot s a ++ b
cons_slot-append none a b = refl
cons_slot-append (some e) a b = refl

pub live_of-append : (sl tl : Slots) → live_of (sl ++ tl) ≡ live_of sl ++ live_of tl
live_of-append [] tl = refl
live_of-append (s ∷ sl) tl = ap (cons_slot s) (live_of-append sl tl) ∙ cons_slot-append s _ _

-- An entry that is found by its name stands at some position.
pub entry_named-get_slot :
    (name : List ℕ) (sl : Slots) (e : ReadDirEntry)
    → entry_named name (live_of sl) ≡ some e
    → (i : ℕ) × (get_slot sl i ≡ some e) × (e.name.bytes ≡ name)
unfolding entry_named
entry_named-get_slot name [] e h = ground arith
entry_named-get_slot name (none ∷ sl) e h =
    let (i, p, q) = entry_named-get_slot name sl e h in (suc i, p, q)
entry_named-get_slot name (some x ∷ sl) e h = elim (Bool-cases (has_name name x)) [
  | inl t ↦ (0, ground arith, ground (arith, eq_of_bytes_eq x.name.bytes name t))
  | inr f ↦ let (i, p, q) = entry_named-get_slot name sl e (ground arith) in (suc i, p, q)
]

-- The entry at a position is the one that its name finds.
pub get_slot-entry_named :
    (name : List ℕ) (sl : Slots) (i : ℕ) (e : ReadDirEntry)
    → Distinct sl
    → get_slot sl i ≡ some e
    → e.name.bytes ≡ name
    → entry_named name (live_of sl) ≡ some e
unfolding entry_named
get_slot-entry_named name [] i e d h q = ground arith
get_slot-entry_named name (none ∷ sl) zero e d h q = ground arith
get_slot-entry_named name (none ∷ sl) (suc i) e d h q =
    get_slot-entry_named name sl i e (Distinct-tail none sl d) h q
get_slot-entry_named name (some x ∷ sl) zero e d h q =
    ground (arith, bytes_eq_refl name, ap (λ b. bytes_eq b name) q)
get_slot-entry_named name (some x ∷ sl) (suc i) e d h q = elim (Bool-cases (has_name name x)) [
  | inl t ↦
      absurd (omega (arith, d 0 (suc i) x e refl h (eq_of_bytes_eq x.name.bytes name t ∙ sym q)))
  | inr f ↦ rw f (get_slot-entry_named name sl i e (Distinct-tail (some x) sl d) h q)
]

-- A name that no live position has.
abbrev pub Absent : List ℕ → Slots → Type 0
Absent name sl = (i : ℕ) (e : ReadDirEntry) → get_slot sl i ≡ some e → e.name.bytes ≢ name

pub without-Absent :
    (name : List ℕ) (sl : Slots) → Absent name sl → without name (live_of sl) ≡ live_of sl
unfolding without keep
without-Absent name [] h = refl
without-Absent name (none ∷ sl) h = without-Absent name sl (λ i. h (suc i))
without-Absent name (some x ∷ sl) h = elim (Bool-cases (has_name name x)) [
  | inl t ↦ absurd (h 0 x refl (eq_of_bytes_eq x.name.bytes name t))
  | inr f ↦ rw f (ap (λ l. x ∷ l) (without-Absent name sl (λ i. h (suc i))))
]

-- To clear a position is to take its name out.
pub live_of-clear :
    (sl : Slots) (i : ℕ) (e : ReadDirEntry)
    → Distinct sl
    → get_slot sl i ≡ some e
    → live_of (set sl i none) ≡ without e.name.bytes (live_of sl)
unfolding without keep
live_of-clear [] i e d h = ground arith
live_of-clear (s ∷ sl) zero e d h =
    let rest =
      without-Absent e.name.bytes sl
        (λ i x p q. absurd (omega (arith, d 0 (suc i) e x h p (sym q)))) in
    rw (h, bytes_eq_refl e.name.bytes) (sym (unfold without in rest))
live_of-clear (none ∷ sl) (suc i) e d h = live_of-clear sl i e (Distinct-tail none sl d) h
live_of-clear (some x ∷ sl) (suc i) e d h = elim (Bool-cases (has_name e.name.bytes x)) [
  | inl t ↦
      absurd (omega (arith, d 0 (suc i) x e refl h (eq_of_bytes_eq x.name.bytes e.name.bytes t)))
  | inr f ↦ rw f (ap (λ l. x ∷ l) (live_of-clear sl i e (Distinct-tail (some x) sl d) h))
]
