-- ===== src/Nfs/Nfs41/State/WellFormed.antt =====
-- crates/mist-nfs/src/nfs41/state.rs: what holds of its state after any calls.
use mathlib.Core.Path.{subst}
use mist.Prelude.{
  replicate, ℕ, true, false, not, none, some, List, [], ◌∷◌, ◌++◌, ◌==◌, ◌≡◌, refl, sym, ap, ◌∙◌,
  ◌⊎◌, inl, inr, arith, Bool-cases, Option-cases, bytes_eq, bytes_eq_refl, eq_of_bytes_eq, ==_iff,
  ==_refl,
}
use mist.Prelude.Map.{Map, insert, lookup, remove, retain, lookup-insert, lookup-remove}
use mist.Prelude.Map.Unique.{Unique, insert-Unique, remove-Unique, retain-Unique, lookup-retain}
use mist.Bytes.{to_be_bytes}
use mist.Nfs.Nfs41.State.{
  id_key, clientid_key, Session, Client, State, new, find_owner, new_client, exchange_id,
  create_session, destroy_session, destroy_client, new_other, is_some, default_slot, fore_slots,
}

-- Each client stands under its own id, no two have the same owner, and each session stands under its
-- own id and belongs to a client that is there.
pub record Agree (clients : Map ℕ Client) (sessions : Map (List ℕ) Session) : Type 0 where
  pub client_once : Unique clients
  pub session_once : Unique sessions
  pub own_id : (i : ℕ) (c : Client) → lookup i clients ≡ some c → c.clientid ≡ i
  pub one_owner :
      (i j : ℕ) (c d : Client)
      → lookup i clients ≡ some c
      → lookup j clients ≡ some d
      → c.owner ≡ d.owner
      → i ≡ j
  pub own_session : (id : List ℕ) (e : Session) → lookup id sessions ≡ some e → e.id ≡ id
  pub alive :
      (id : List ℕ) (e : Session)
      → lookup id sessions ≡ some e
      → (c : Client) × (lookup e.clientid clients ≡ some c)

abbrev pub IsWellFormed : State → Type 0
IsWellFormed s = Agree s.clients s.sessions

find_owner_found :
    (owner : List ℕ) (m : Map ℕ Client) (c : Client)
    → Unique m
    → find_owner owner m ≡ some c
    → (c.owner ≡ owner) × ((i : ℕ) × (lookup i m ≡ some c))
unfolding find_owner lookup
find_owner_found owner [] c u e = ground (arith, e)
find_owner_found owner ((k, d) ∷ m) c u e = elim (Bool-cases (bytes_eq d.owner owner)) [
  | inl t ↦
      let same : d ≡ c = ground (arith, e, t) in
      (rw (sym same) (eq_of_bytes_eq d.owner owner t), (k, rw (==_refl k) (ap some same)))
  | inr f ↦
      let rest = find_owner_found owner m c u.1 (ground (arith, e, f)) in
      (rest.0, (rest.1.0, ground (arith, rest.1.1, u.0, ==_iff k rest.1.0)))
]

find_owner_absent :
    (owner : List ℕ) (m : Map ℕ Client) (i : ℕ) (c : Client)
    → find_owner owner m ≡ none
    → lookup i m ≡ some c
    → bytes_eq c.owner owner ≡ false
unfolding find_owner lookup
find_owner_absent owner [] i c n l = ground (arith, l)
find_owner_absent owner ((k, d) ∷ m) i c n l = elim (Bool-cases (k == i)) [
  | inl t ↦
      let same : d ≡ c = ground (arith, l, t) in
      let other : bytes_eq d.owner owner ≡ false = ground (arith, n) in rw (sym same) other
  | inr f ↦ find_owner_absent owner m i c (ground (arith, n)) (ground (arith, l, f))
]

-- A client that goes, with its sessions: what is left is well formed.
abbrev without : State → ℕ → State
without s id = record s {
  clients = remove id s.clients;
  sessions = retain (λ e. not (e.clientid == id)) s.sessions;
}

lookup-left :
    (s : State) (id : ℕ) (sid : List ℕ) (e : Session)
    → IsWellFormed s
    → lookup sid (retain (λ e. not (e.clientid == id)) s.sessions) ≡ some e
    → (lookup sid s.sessions ≡ some e) × ((e.clientid == id) ≡ false)
lookup-left s id sid e w l =
    let found =
      sym (lookup-retain (λ e. not (e.clientid == id)) sid s.sessions w.session_once) ∙ l in
    elim (Option-cases (lookup sid s.sessions)) [
      | inl n ↦ ground (arith, found, n)
      | inr some_session ↦ elim (Bool-cases (some_session.0.clientid == id)) [
        | inl t ↦ ground (arith, found, some_session.1, t)
        | inr f ↦
            let same : some_session.0 ≡ e = ground (arith, found, some_session.1, f) in
            (some_session.1 ∙ ap some same, rw (sym same) f)
      ]
    ]

without-IsWellFormed : (s : State) (id : ℕ) → IsWellFormed s → IsWellFormed (without s id)
without-IsWellFormed s id w = record {
  client_once = remove-Unique id s.clients w.client_once;
  session_once = retain-Unique (λ e. not (e.clientid == id)) s.sessions w.session_once;
  own_id = λ i c l. w.own_id i c (ground (arith, l, lookup-remove id i s.clients));
  one_owner = λ i j c d l k e.
      w.one_owner i j c d (ground (arith, l, lookup-remove id i s.clients))
        (ground (arith, k, lookup-remove id j s.clients)) e;
  own_session = λ sid e l. w.own_session sid e (lookup-left s id sid e w l).0;
  alive = λ sid e l.
      let left = lookup-left s id sid e w l in
      let home = w.alive sid e left.0 in
      (
        home.0,
        ground (
          arith,
          home.1,
          left.1,
          lookup-remove id e.clientid s.clients,
          ==_iff id e.clientid,
          ==_iff e.clientid id,
        ),
      );
}

inserted :
    (clients : Map ℕ Client) (c d : Client) (i : ℕ)
    → lookup i (insert c.clientid c clients) ≡ some d
    → ((i ≡ c.clientid) × (d ≡ c)) ⊎ (lookup i clients ≡ some d)
inserted clients c d i l = elim (Bool-cases (c.clientid == i)) [
  | inl t ↦
      inl (
        sym ((==_iff c.clientid i).0 t),
        ground (arith, l, lookup-insert c.clientid i c clients, t),
      )
  | inr f ↦ inr (ground (arith, l, lookup-insert c.clientid i c clients, f))
]

-- A client under its own id, when no other client has its owner.
insert-Agree :
    (clients : Map ℕ Client) (sessions : Map (List ℕ) Session) (c : Client)
    → Agree clients sessions
    → ((i : ℕ) (d : Client) → lookup i clients ≡ some d → d.owner ≡ c.owner → i ≡ c.clientid)
    → Agree (insert c.clientid c clients) sessions
insert-Agree clients sessions c w only = record {
  client_once = insert-Unique c.clientid c clients w.client_once;
  session_once = w.session_once;
  own_id = λ i d l. elim (inserted clients c d i l) [
    | inl new ↦ ap (λ e. e.clientid) new.1 ∙ sym new.0
    | inr old ↦ w.own_id i d old
  ];
  one_owner = λ i j d e l k o. elim (inserted clients c d i l) [
    | inl new ↦ elim (inserted clients c e j k) [
      | inl new' ↦ new.0 ∙ sym new'.0
      | inr old' ↦ new.0 ∙ sym (only j e old' (sym o ∙ ap (λ x. x.owner) new.1))
    ]
    | inr old ↦ elim (inserted clients c e j k) [
      | inl new' ↦ only i d old (o ∙ ap (λ x. x.owner) new'.1) ∙ sym new'.0
      | inr old' ↦ w.one_owner i j d e old old' o
    ]
  ];
  own_session = w.own_session;
  alive = λ sid e l.
      let home = w.alive sid e l in
      elim (Bool-cases (c.clientid == e.clientid)) [
        | inl t ↦ (c, lookup-insert c.clientid e.clientid c clients ∙ rw t refl)
        | inr f ↦ (home.0, lookup-insert c.clientid e.clientid c clients ∙ rw f home.1)
      ];
}

insert_session-Agree :
    (clients : Map ℕ Client) (sessions : Map (List ℕ) Session) (e : Session) (c : Client)
    → Agree clients sessions
    → lookup e.clientid clients ≡ some c
    → Agree clients (insert e.id e sessions)
insert_session-Agree clients sessions e c w home = record {
  client_once = w.client_once;
  session_once = insert-Unique e.id e sessions w.session_once;
  own_id = w.own_id;
  one_owner = w.one_owner;
  own_session = λ sid d l. elim (Bool-cases (bytes_eq e.id sid)) [
    | inl t ↦
        let same : e ≡ d = ground (arith, l, lookup-insert e.id sid e sessions, t) in
        ap (λ x. x.id) (sym same) ∙ eq_of_bytes_eq e.id sid t
    | inr f ↦ w.own_session sid d (ground (arith, l, lookup-insert e.id sid e sessions, f))
  ];
  alive = λ sid d l. elim (Bool-cases (bytes_eq e.id sid)) [
    | inl t ↦
        let same : e ≡ d = ground (arith, l, lookup-insert e.id sid e sessions, t) in
        (c, ap (λ x. lookup x.clientid clients) (sym same) ∙ home)
    | inr f ↦ w.alive sid d (ground (arith, l, lookup-insert e.id sid e sessions, f))
  ];
}

exchange_id-IsWellFormed :
    (s : State) (owner verifier : List ℕ)
    → IsWellFormed s
    → IsWellFormed (exchange_id s owner verifier).0
unfolding exchange_id new_client
exchange_id-IsWellFormed s owner verifier w =
    let client : Client = record {
      clientid = s.next_clientid;
      owner = owner;
      verifier = verifier;
      confirmed = false;
      sequence_id = 1;
    } in
    elim (Option-cases (find_owner owner s.clients)) [
      | inl n ↦
          rw (exchange_id, n)
            (insert-Agree s.clients s.sessions client w (λ i d l o.
              let matches : bytes_eq d.owner owner ≡ true =
                ap (bytes_eq d.owner) (sym o) ∙ bytes_eq_refl d.owner in
              ground (arith, find_owner_absent owner s.clients i d n l, matches)))
      | inr found ↦
          let existing = found.0 in
          let stale = existing.clientid in
          let there = find_owner_found owner s.clients existing w.client_once found.1 in
          let own = w.own_id there.1.0 existing there.1.1 in
          rw (exchange_id, found.1)
            (elim (Bool-cases (bytes_eq existing.verifier verifier)) [
              | inl t ↦ rw t w
              | inr f ↦ rw f (
                  insert-Agree (without s stale).clients (without s stale).sessions client
                    (without-IsWellFormed s stale w)
                    (λ i d l o.
                      let before : lookup i s.clients ≡ some d =
                        ground (arith, l, lookup-remove stale i s.clients) in
                      let same =
                        w.one_owner i there.1.0 d existing before there.1.1 (o ∙ sym there.0) in
                      ground (arith, l, lookup-remove stale i s.clients, same, own)))
            ])
    ]

create_session-IsWellFormed :
    (s : State) (clientid cb_program rand : ℕ)
    → IsWellFormed s
    → IsWellFormed (create_session s clientid cb_program rand).0
unfolding create_session
create_session-IsWellFormed s clientid cb_program rand w =
    elim (Option-cases (lookup clientid s.clients)) [
      | inl n ↦ rw (create_session, n) w
      | inr found ↦
          let c = found.0 in
          let own = w.own_id clientid c found.1 in
          let c' : Client = record c { confirmed = true } in
          let clients = insert clientid c' s.clients in
          let confirmed : Agree clients s.sessions =
            subst (λ i. Agree (insert i c' s.clients) s.sessions) own
              (insert-Agree s.clients s.sessions c' w
                (λ i d l o. w.one_owner i clientid d c l found.1 o ∙ sym own)) in
          let id = to_be_bytes 8 clientid ++ to_be_bytes 8 rand in
          let new_session : Session = record {
            id = id;
            clientid = clientid;
            slots = replicate fore_slots default_slot;
            cb_program = cb_program;
            back_slot_seqid = 0;
          } in
          rw (create_session, found.1)
            (insert_session-Agree clients s.sessions new_session c' confirmed
              (lookup-insert clientid clientid c' s.clients ∙ rw (==_refl clientid) refl))
    ]

destroy_session-IsWellFormed :
    (s : State) (id : List ℕ) → IsWellFormed s → IsWellFormed (destroy_session s id).0
unfolding destroy_session
destroy_session-IsWellFormed s id w = record {
  client_once = w.client_once;
  session_once = remove-Unique id s.sessions w.session_once;
  own_id = w.own_id;
  one_owner = w.one_owner;
  own_session = λ sid e l. w.own_session sid e (ground (arith, l, lookup-remove id sid s.sessions));
  alive = λ sid e l. w.alive sid e (ground (arith, l, lookup-remove id sid s.sessions));
}

destroy_client-IsWellFormed :
    (s : State) (clientid : ℕ) → IsWellFormed s → IsWellFormed (destroy_client s clientid).0
unfolding destroy_client
destroy_client-IsWellFormed s clientid w = elim (Bool-cases (is_some (lookup clientid s.clients))) [
  | inl t ↦ rw t (without-IsWellFormed s clientid w)
  | inr f ↦ rw f w
]

-- The calls on the state.
pub data Call : Type 0 where
  exchange : (owner verifier : List ℕ) → Call
  begin : (clientid cb_program rand : ℕ) → Call
  end : (id : List ℕ) → Call
  leave : (clientid : ℕ) → Call
  mint : (kind : ℕ) → Call

unfoldable pub run : State → List Call → State
run s [] = s
run s (exchange owner verifier ∷ calls) = run (exchange_id s owner verifier).0 calls
run s (begin clientid cb_program rand ∷ calls) =
    run (create_session s clientid cb_program rand).0 calls
run s (end id ∷ calls) = run (destroy_session s id).0 calls
run s (leave clientid ∷ calls) = run (destroy_client s clientid).0 calls
run s (mint kind ∷ calls) = run (new_other s kind).0 calls

run-keeps : (s : State) (calls : List Call) → IsWellFormed s → IsWellFormed (run s calls)
unfolding run new_other
run-keeps s [] w = w
run-keeps s (exchange owner verifier ∷ calls) w =
    run-keeps (exchange_id s owner verifier).0 calls (exchange_id-IsWellFormed s owner verifier w)
run-keeps s (begin clientid cb_program rand ∷ calls) w =
    run-keeps (create_session s clientid cb_program rand).0 calls
      (create_session-IsWellFormed s clientid cb_program rand w)
run-keeps s (end id ∷ calls) w =
    run-keeps (destroy_session s id).0 calls (destroy_session-IsWellFormed s id w)
run-keeps s (leave clientid ∷ calls) w =
    run-keeps (destroy_client s clientid).0 calls (destroy_client-IsWellFormed s clientid w)
run-keeps s (mint kind ∷ calls) w = run-keeps (new_other s kind).0 calls w

-- After any sequence of calls on a new server's state, each client stands under its own id, no two
-- clients have the same owner, and each session stands under its own id and belongs to a client
-- that is there.
pub run-IsWellFormed :
    (boot first : ℕ) (calls : List Call) → IsWellFormed (run (new boot first) calls)
unfolding lookup
run-IsWellFormed boot first calls = run-keeps (new boot first) calls (record {
  client_once = tt;
  session_once = tt;
  own_id = λ i c l. ground (arith, l);
  one_owner = λ i j c d l k o. ground (arith, l);
  own_session = λ id e l. ground (arith, l);
  alive = λ id e l. ground (arith, l);
})
