-- ===== src/P2P/Peers/Life.antt =====
-- What connects, ends of read loops, probes and the stop do to the peers that count as active.
use Prim.Native.String.{String}
use inso_validator.Prelude.{
  ℕ, ◌≡◌, ◌≢◌, refl, sym, ap, ◌∙◌, Bool, true, false, [], ◌∷◌, some, not, ◌&&◌, ◌==◌, if◌then◌else◌,
  arith, Bool-cases, Option-cases, inl, inr,
}
use inso_validator.Prelude.Names.{
  HasUniqueNames, put-HasUniqueNames, change-HasUniqueNames, change_all-HasUniqueNames, Names, same,
  same_iff, find, change, change_all, find-put, find-change, find-change_all,
}
use inso_validator.P2P.Peers.{
  Peer, Socket, Network, set_socket, closed, connect, hang_up, mark_inactive, check_peer_liveness,
  stop, new_peer, mark_dead, is_dead, close_dead, reachable,
}

-- The connection of a peer, active or not.
abbrev Holds : Network → String → ℕ → Type 0
Holds n id c = (p : Peer) × (find id n.peers ≡ some p) × (p.conn ≡ some c)

-- `spared` tells which connections may be closed though their peer counts as active.
pub record IsLive (n : Network) (spared : ℕ → Bool) : Type 0 where
  pub unique : HasUniqueNames n.peers
  pub is_open :
      (id : String) (p : Peer) (c : ℕ)
      → find id n.peers ≡ some p
      → p.is_active ≡ true
      → p.conn ≡ some c
      → spared c ≡ false
      → (n.sockets c).is_closed ≡ false
  pub one_owner :
      (i j : String) (p q : Peer) (c : ℕ)
      → find i n.peers ≡ some p
      → find j n.peers ≡ some q
      → p.conn ≡ some c
      → q.conn ≡ some c
      → i ≡ j

-- No entry has the connection, as for one that was just made.
abbrev pub IsFresh : Network → ℕ → Type 0
IsFresh n c = (id : String) (p : Peer) → find id n.peers ≡ some p → p.conn ≢ some c

-- Nobody but this entry has the connection, as for one whose read loop was started for the entry.
abbrev pub IsOwn : Network → String → ℕ → Type 0
IsOwn n id c = (j : String) (q : Peer) → find j n.peers ≡ some q → q.conn ≡ some c → j ≡ id

-- One connection is spared or no longer.
abbrev pub spare : ℕ → Bool → (ℕ → Bool) → ℕ → Bool
spare c b spared i = if i == c then b else spared i

pub connect-IsLive :
    (n : Network) (spared : ℕ → Bool) (id address : String) (c : ℕ)
    → IsLive n spared
    → IsFresh n c
    → IsLive (connect n id address c) (spare c false spared)
unfolding connect new_peer
connect-IsLive n spared id address c v fresh = record {
  unique = put-HasUniqueNames id (new_peer id address c) n.peers v.unique;
  is_open = λ i p d found active conn guarded.
      ground (arith, find-put i id (new_peer id address c) n.peers, v.is_open i p d, fresh i p);
  one_owner = λ i j p q d fi fj ci cj. ground (
    arith,
    find-put i id (new_peer id address c) n.peers,
    find-put j id (new_peer id address c) n.peers,
    same_iff i id,
    same_iff j id,
    v.one_owner i j p q d,
    fresh i p,
    fresh j q,
  );
}

abbrev inactive : Peer → Peer
inactive p = record p { is_active = false }

-- Where an entry comes from that stands in the table after a peer was marked.
Origin : String → Names Peer → Peer → Type 0
Origin i m p = (q : Peer) × (find i m ≡ some q) × (q.conn ≡ p.conn) × (p.is_active ≡ true → p ≡ q)

change-Origin :
    (i id : String) (m : Names Peer) (p : Peer)
    → find i (change id inactive m) ≡ some p
    → Origin i m p × (p.is_active ≡ true → same i id ≡ false)
unfolding Origin
change-Origin i id m p found = elim (Bool-cases (same i id)) [
  | inl here ↦ elim (Option-cases (find i m)) [
    | inl absent ↦ absurd (ground (arith, find-change i id inactive m))
    | inr (q, there) ↦
        let marked : some (inactive q) ≡ some p = ground (arith, find-change i id inactive m) in
        let off : p.is_active ≡ false = cc in ((q, there, cc, λ on. absurd (cc)), λ on. absurd (cc))
  ]
  | inr elsewhere ↦
      ((p, ground (arith, find-change i id inactive m), refl, λ on. refl), λ on. elsewhere)
]

pub hang_up-IsLive :
    (n : Network) (spared : ℕ → Bool) (c : ℕ)
    → IsLive n spared
    → IsLive (hang_up n c) (spare c true spared)
unfolding hang_up
hang_up-IsLive n spared c v = record {
  unique = v.unique;
  is_open = λ i p d found active conn guarded. ground (arith, v.is_open i p d found active conn);
  one_owner = v.one_owner;
}

-- Once the network has stopped, no connection that it had is expected to be open.
pub stop-IsLive : (n : Network) (spared : ℕ → Bool) → IsLive n spared → IsLive (stop n) (λ c. true)
unfolding stop
stop-IsLive n spared v = record {
  unique = v.unique;
  is_open = λ i p d found active conn guarded. absurd (cc);
  one_owner = v.one_owner;
}

pub mark-IsLive :
    (n : Network) (spared : ℕ → Bool) (id : String) (c : ℕ)
    → IsLive n spared
    → IsOwn n id c
    → IsLive (mark_inactive n id) (spare c false spared)
unfolding mark_inactive Origin
mark-IsLive n spared id c v own = record {
  unique = change-HasUniqueNames id inactive n.peers v.unique;
  is_open = λ i p d found active conn guarded.
      let ((q, there, kept, active_same), other) = change-Origin i id n.peers p found in
      ground (
        arith,
        active_same active,
        other active,
        same_iff i id,
        v.is_open i q d there,
        own i q there,
      );
  one_owner = λ i j p q d fi fj ci cj.
      let ((p', i_there, p_kept, _), _) = change-Origin i id n.peers p fi in
      let ((q', j_there, q_kept, _), _) = change-Origin j id n.peers q fj in
      v.one_owner i j p' q' d i_there j_there (cc) (cc);
}

is_dead-down :
    (alive : ℕ → Bool) (sockets : ℕ → Socket) (p : Peer) (c : ℕ)
    → is_dead alive sockets p ≡ some c
    → (alive c && not (sockets c).is_closed) ≡ false
unfolding is_dead
is_dead-down alive sockets p c e = ground arith

close_other :
    (alive : ℕ → Bool) (sockets : ℕ → Socket) (d c : ℕ)
    → alive d ≡ true
    → (sockets d).is_closed ≡ false
    → (alive c && not (sockets c).is_closed) ≡ false
    → (set_socket c (closed (sockets c)) sockets d).is_closed ≡ false
close_other alive sockets d c up is_open down = ground arith

close_dead_keeps :
    (alive : ℕ → Bool) (m : Names Peer) (sockets : ℕ → Socket) (d : ℕ)
    → alive d ≡ true
    → (sockets d).is_closed ≡ false
    → (close_dead alive m sockets d).is_closed ≡ false
unfolding close_dead
close_dead_keeps alive [] sockets d up is_open = is_open
close_dead_keeps alive (entry ∷ rest) sockets d up is_open =
    elim (Option-cases (is_dead alive sockets entry.1)) [
      | inl alive_entry ↦
          rw (alive_entry, close_dead) (close_dead_keeps alive rest sockets d up is_open)
      | inr (c, dead) ↦
          rw (dead, close_dead)
            (close_dead_keeps alive rest (set_socket c (closed (sockets c)) sockets) d up (
              close_other alive sockets d c up is_open (is_dead-down alive sockets entry.1 c dead)))
    ]

-- A peer that is left active by a check is what it was, and its connection answered.
mark_dead-active :
    (alive : ℕ → Bool) (sockets : ℕ → Socket) (q p : Peer) (d : ℕ)
    → mark_dead alive sockets q ≡ p
    → p.is_active ≡ true
    → p.conn ≡ some d
    → (q.is_active ≡ true) × (alive d ≡ true)
unfolding mark_dead is_dead reachable
mark_dead-active alive sockets q p d e active conn = ground arith

mark_dead-conn :
    (alive : ℕ → Bool) (sockets : ℕ → Socket) (q : Peer) → (mark_dead alive sockets q).conn ≡ q.conn
unfolding mark_dead
mark_dead-conn alive sockets q = ground arith

find-change_all-some :
    (f : Peer → Peer) (i : String) (m : Names Peer) (p : Peer)
    → find i (change_all f m) ≡ some p
    → (q : Peer) × (find i m ≡ some q) × (f q ≡ p)
find-change_all-some f i m p e = elim (Option-cases (find i m)) [
  | inl absent ↦ absurd (ground (arith, find-change_all i f m))
  | inr (q, there) ↦ (q, there, ground (arith, find-change_all i f m))
]

pub check-IsLive :
    (alive : ℕ → Bool) (n : Network) (spared : ℕ → Bool)
    → IsLive n spared
    → IsLive (check_peer_liveness alive n) spared
unfolding check_peer_liveness
check-IsLive alive n spared v = record {
  unique = change_all-HasUniqueNames (mark_dead alive n.sockets) n.peers v.unique;
  is_open = λ i p d found active conn guarded.
      let (q, there, made) = find-change_all-some (mark_dead alive n.sockets) i n.peers p found in
      let (on, up) = mark_dead-active alive n.sockets q p d made active conn in
      let kept : q.conn ≡ some d =
        sym (mark_dead-conn alive n.sockets q) ∙ ap (λ r. r.conn) made ∙ conn in
      close_dead_keeps alive n.peers n.sockets d up (v.is_open i q d there on kept guarded);
  one_owner = λ i j p q d fi fj ci cj.
      let (p', i_there, p_made) = find-change_all-some (mark_dead alive n.sockets) i n.peers p fi in
      let (q', j_there, q_made) = find-change_all-some (mark_dead alive n.sockets) j n.peers q fj in
      v.one_owner i j p' q' d i_there j_there
        (sym (mark_dead-conn alive n.sockets p') ∙ ap (λ r. r.conn) p_made ∙ ci)
        (sym (mark_dead-conn alive n.sockets q') ∙ ap (λ r. r.conn) q_made ∙ cj);
}
