-- ===== src/Nfs/Rpc/Calls.antt =====
-- The parser of crates/mist-nfs/src/rpc.rs against the layout of a call in RFC 5531.
use mist.Prelude.{
  ℕ, ◌+◌, ◌^◌, ◌≤◌, ◌<◌, true, false, some, List, [], ◌++◌, length, ◌==◌, if◌then◌else◌, ◌≡◌, ◌≢◌,
  refl, sym, ap, ◌∙◌, arith, append-nil, append_assoc, length-append,
}
use mist.Prelude.Result.{ok, err}
use mist.Bytes.{to_be_bytes}
use mist.Nfs.Xdr.Reader
use mist.Nfs.Xdr.Reader.{XdrReader, R}
use mist.Nfs.Xdr.Roundtrip.{
  Reads, Reads-pure, Reads-bind, Reads-map, Reads-u32, Reads-opaque, opaque_bytes,
}
use mist.Nfs.Rpc.{
  RpcCall, RpcDecodeError, not_call, bad_version, P, lift, ◌>>=◌, ◌>>◌, refuse, read_ids, read_auth,
  parse_header, parse_call, auth_sys,
}

-- `m` reads the bytes `xs`, wherever they stand, as `a`, and stops right behind them.
record Parses {A : Type 0} (m : P A) (a : A) (xs : List ℕ) : Type 0 where
  at :
      (r : XdrReader) (before after : List ℕ)
      → r.buf ≡ before ++ (xs ++ after)
      → r.pos ≡ length before
      → m r ≡ ok (a, record { buf = r.buf; pos = r.pos + length xs })

Parses-lift : {A : Type 0} (m : R A) {a : A} {xs : List ℕ} → Reads m a xs → Parses (lift m) a xs
Parses-lift m reads = record { at = λ r before after e p. rw (reads.at r before after e p) }

Parses-bind :
    {A B : Type 0} (m : P A) (f : A → P B) {a : A} {b : B} {xs ys : List ℕ}
    → Parses m a xs
    → Parses (f a) b ys
    → Parses (m >>= f) b (xs ++ ys)
unfolding ◌>>=◌
Parses-bind m f {a} {b} {xs} {ys} pm pf = record {
  at = λ r before after e p.
      let e' : r.buf ≡ before ++ (xs ++ (ys ++ after)) =
        e ∙ ap (λ l. before ++ l) (append_assoc xs ys after) in
      let tail =
        pf.at (record { buf = r.buf; pos = r.pos + length xs }) (before ++ xs) after
          (e' ∙ sym (append_assoc before xs (ys ++ after)))
          (omega (arith, length-append before xs)) in
      rw (pm.at r before (ys ++ after) e' p) (tail ∙ ground (arith, length-append xs ys));
}

Reads-then :
    {A B : Type 0} (m : R A) (f : A → R B) {a : A} {b : B} {xs : List ℕ}
    → Reads m a xs
    → Reads (f a) b []
    → Reads (Reader.◌>>=◌ m f) b xs
Reads-then m f {xs = xs} rm rf = rw (append-nil xs) at (Reads-bind m f rm rf)

Parses-then :
    {A B : Type 0} (m : P A) (f : A → P B) {a : A} {b : B} {xs : List ℕ}
    → Parses m a xs
    → Parses (f a) b []
    → Parses (m >>= f) b xs
Parses-then m f {xs = xs} pm pf = rw (append-nil xs) at (Parses-bind m f pm pf)

-- A credential: a flavour and a body.
pub record Cred : Type 0 where
  pub flavor : ℕ
  pub body : List ℕ

pub cred_bytes : Cred → List ℕ
cred_bytes c = to_be_bytes 4 c.flavor ++ opaque_bytes c.body

-- The body of an AUTH_SYS credential up to its group id; a list of groups follows.
unfoldable pub ids_bytes : ℕ → List ℕ → ℕ → ℕ → List ℕ
ids_bytes stamp machine uid gid =
    to_be_bytes 4 stamp ++ (opaque_bytes machine ++ (to_be_bytes 4 uid ++ to_be_bytes 4 gid))

-- The credential gives the user and the group: those of its body, or zeros if it is not AUTH_SYS.
pub data Gives : Cred → ℕ → ℕ → Type 0 where
  other : (c : Cred) → c.flavor ≢ 1 → {u g : ℕ} → u ≡ 0 → g ≡ 0 → Gives c u g
  sys :
      (c : Cred) (stamp : ℕ) (machine : List ℕ) (u g : ℕ) (groups : List ℕ)
      → c.flavor ≡ 1
      → c.body ≡ ids_bytes stamp machine u g ++ groups
      → stamp < 2 ^ 32
      → length machine ≤ 255
      → u < 2 ^ 32
      → g < 2 ^ 32
      → Gives c u g

pub record CredIsValid (c : Cred) : Type 0 where
  pub flavor : c.flavor < 2 ^ 32
  pub body : length c.body ≤ 1024

Reads-ids :
    (stamp : ℕ) (machine : List ℕ) (u g : ℕ)
    → stamp < 2 ^ 32
    → length machine ≤ 255
    → u < 2 ^ 32
    → g < 2 ^ 32
    → Reads read_ids (u, g) (ids_bytes stamp machine u g)
unfolding read_ids ids_bytes
Reads-ids stamp machine u g hs hm hu hg = Reads-bind Reader.u32 _ (Reads-u32 stamp hs) (
    Reads-bind (Reader.opaque 255) _ (Reads-opaque 255 machine hm (omega arith)) (
      Reads-bind Reader.u32 _ (Reads-u32 u hu)
        (Reads-map Reader.u32 (λ gid. (u, gid)) (Reads-u32 g hg) refl)))

ids_of_body :
    (body : List ℕ) (stamp : ℕ) (machine : List ℕ) (u g : ℕ) (groups : List ℕ)
    → body ≡ ids_bytes stamp machine u g ++ groups
    → stamp < 2 ^ 32
    → length machine ≤ 255
    → u < 2 ^ 32
    → g < 2 ^ 32
    → (read_ids (Reader.new body)).0 ≡ some (u, g)
unfolding Reader.new
ids_of_body body stamp machine u g groups e hs hm hu hg =
    ap (λ p. p.0)
      ((Reads-ids stamp machine u g hs hm hu hg).at (record { buf = body; pos = 0 }) [] groups e
        refl)

-- The end of `read_auth`, which consumes nothing.
Reads-auth_end :
    (c : Cred) (u g : ℕ)
    → Gives c u g
    → Reads
        (if c.flavor == auth_sys
          then (λ r. ((read_ids (Reader.new c.body)).0, r))
          else Reader.pure (0, 0))
        (u, g)
        []
Reads-auth_end c u g (other _ h hu hg) =
    let differs : (c.flavor == 1) ≡ false = ground arith in rw (differs, hu, hg) (Reads-pure (0, 0))
Reads-auth_end c u g (sys _ stamp machine _ _ groups hf e hs hm hu hg) =
    let same : (c.flavor == 1) ≡ true = ground arith in
    rw (same, ids_of_body c.body stamp machine u g groups e hs hm hu hg) (Reads-pure (u, g))

Reads-auth :
    (c : Cred) (u g : ℕ) → CredIsValid c → Gives c u g → Reads read_auth (u, g) (cred_bytes c)
unfolding read_auth cred_bytes
Reads-auth c u g v gives = Reads-bind Reader.u32 _ (Reads-u32 c.flavor v.flavor) (
    Reads-then (Reader.opaque 1024) _ (Reads-opaque 1024 c.body v.body (omega (arith, v.body)))
      (Reads-auth_end c u g gives))

pub record CallIsValid (c : RpcCall) : Type 0 where
  pub xid : c.xid < 2 ^ 32
  pub program : c.program < 2 ^ 32
  pub version : c.version < 2 ^ 32
  pub procedure : c.procedure < 2 ^ 32

-- A call message: its header, a credential, a verifier, and then the arguments.
pub call_bytes : RpcCall → ℕ → ℕ → Cred → Cred → List ℕ
call_bytes c msg_type rpcvers cred verifier =
    to_be_bytes 4 c.xid
    ++ (to_be_bytes 4 msg_type
        ++ (to_be_bytes 4 rpcvers
            ++ (to_be_bytes 4 c.program
                ++ (to_be_bytes 4 c.version
                    ++ (to_be_bytes 4 c.procedure ++ (cred_bytes cred ++ cred_bytes verifier))))))

Reads-skip_opaque :
    (body : List ℕ) → length body ≤ 1024 → Reads (Reader.skip_opaque 1024) tt (opaque_bytes body)
unfolding Reader.skip_opaque
Reads-skip_opaque body h =
    Reads-map (Reader.opaque 1024) (λ _. tt) (Reads-opaque 1024 body h (omega (arith, h))) refl

Parses-pass :
    {A : Type 0} (e : RpcDecodeError) (m : P A) {a : A} {xs : List ℕ}
    → Parses m a xs
    → Parses (refuse false e >> m) a xs
unfolding ◌>>=◌
Parses-pass e m pm = record { at = λ r before after eq p. pm.at r before after eq p }

Parses-tail :
    {A : Type 0} (a : A) (v : Cred)
    → CredIsValid v
    → Parses
        (do _ ← lift Reader.u32; _ ← lift (Reader.skip_opaque 1024); lift (Reader.pure a))
        a
        (cred_bytes v)
unfolding cred_bytes
Parses-tail a v valid = Parses-bind _ _ (Parses-lift Reader.u32 (Reads-u32 v.flavor valid.flavor)) (
    Parses-then (lift (Reader.skip_opaque 1024)) (λ _. lift (Reader.pure a))
      (Parses-lift (Reader.skip_opaque 1024) (Reads-skip_opaque v.body valid.body))
      (Parses-lift (Reader.pure a) (Reads-pure a)))

Parses-header :
    (c : RpcCall) (cred verifier : Cred)
    → CallIsValid c
    → CredIsValid cred
    → CredIsValid verifier
    → Gives cred c.uid c.gid
    → Parses parse_header c (call_bytes c 0 2 cred verifier)
unfolding parse_header call_bytes
Parses-header c cred verifier v vc vv gives =
    let u32 = λ (n : ℕ) (h : n < 2 ^ 32). Parses-lift Reader.u32 (Reads-u32 n h) in
    Parses-bind _ _ (u32 c.xid v.xid) (
      Parses-bind _ _ (u32 0 (omega arith)) (
        Parses-pass not_call _ (
          Parses-bind _ _ (u32 2 (omega arith)) (
            Parses-pass (bad_version 2) _ (
              Parses-bind _ _ (u32 c.program v.program) (
                Parses-bind _ _ (u32 c.version v.version) (
                  Parses-bind _ _ (u32 c.procedure v.procedure) (
                    Parses-bind _ _ (Parses-lift read_auth (Reads-auth cred c.uid c.gid vc gives))
                      (Parses-tail c verifier vv)))))))))

-- A call message of RPC version 2 with any arguments behind it parses to its header, with the user
-- and the group of an AUTH_SYS credential and zeros for any other flavour, and to a reader at the
-- first byte of the arguments.
pub parse_call-call_bytes :
    (c : RpcCall) (cred verifier : Cred) (args : List ℕ)
    → CallIsValid c
    → CredIsValid cred
    → CredIsValid verifier
    → Gives cred c.uid c.gid
    → let bytes = call_bytes c 0 2 cred verifier in
      parse_call (bytes ++ args) ≡ ok (c, record { buf = bytes ++ args; pos = length bytes })
unfolding parse_call Reader.new
parse_call-call_bytes c cred verifier args v vc vv gives =
    (Parses-header c cred verifier v vc vv gives).at _ [] args refl refl ∙ ground arith

-- A message of another type than a call is refused as such, and a call of another RPC version is
-- refused with the version that it names, whatever follows in either.
pub parse_call_refusals :
    (xid msg_type n : ℕ) (rest : List ℕ)
    → xid < 2 ^ 32
    → msg_type < 2 ^ 32
    → n < 2 ^ 32
    → msg_type ≢ 0
    → n ≢ 2
    → (parse_call (to_be_bytes 4 xid ++ (to_be_bytes 4 msg_type ++ rest)) ≡ err not_call)
      × (parse_call (to_be_bytes 4 xid ++ (to_be_bytes 4 0 ++ (to_be_bytes 4 n ++ rest)))
          ≡ err (bad_version n))
unfolding parse_call parse_header Reader.new ◌>>=◌
parse_call_refusals xid msg_type n rest h hm k no_call no_version =
    let at = λ (v : ℕ) (small : v < 2 ^ 32). (Reads-u32 v small).at in
    let word = to_be_bytes 4 in
    let second = λ (v : ℕ) (small : v < 2 ^ 32) (after : List ℕ).
      at v small (record { buf = word xid ++ (word v ++ after); pos = 0 + length (word xid) })
        (word xid) after refl (omega arith) in
    (
      let differs : (msg_type == 0) ≡ false = ground arith in
          rw (
            at xid h (record { buf = word xid ++ (word msg_type ++ rest); pos = 0 }) []
                (word msg_type ++ rest) refl refl,
            second msg_type hm rest,
            differs,
          ),
      let differs : (n == 2) ≡ false = ground arith in
          let buf = word xid ++ (word 0 ++ (word n ++ rest)) in
          rw (
            at xid h (record { buf = buf; pos = 0 }) [] (word 0 ++ (word n ++ rest)) refl refl,
            second 0 (omega arith) (word n ++ rest),
            at n k (record { buf = buf; pos = 0 + length (word xid) + length (word 0) })
                (word xid ++ word 0) rest (sym (append_assoc (word xid) (word 0) (word n ++ rest)))
                (omega (arith, length-append (word xid) (word 0))),
            differs,
          ),
    )
