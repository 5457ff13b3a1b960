-- ===== src/Pool/Cap.antt =====
-- lib/src/client/pool.rs: the cap on the connections of a key.
use hyper4k.Prelude.{
  ℕ, ◌+◌, ◌≤◌, ◌<◌, ◌≡◌, refl, true, false, Option, none, some, List, [], ◌∷◌, ◌++◌, arith, ◌==◌,
  leb, if◌then◌else◌, lookup, insert, remove, contains, lookup-insert, lookup-remove, All,
  Bool-cases, inl, inr, ==_iff, subst, if_cases, sym, ap,
}
use hyper4k.Abi.{err_connect}
use hyper4k.Pool.{
  ConnEntry, Pool, entry_closed, eligible, put_entry, take_lease, try_entry, reuse_in, ids_of,
  reuse, is_live, live_in, live, acquire_start, acquire_locked, drop_lease, shutdown, change,
  Acquired, leased, fails, goes_on,
}

pub live_in_mono :
    (es fs : List (ℕ × ConnEntry)) (ids : List ℕ)
    → All (λ id. is_live fs id ≡ true → is_live es id ≡ true) ids
    → live_in fs ids ≤ live_in es ids
unfolding live_in
live_in_mono es fs [] h = ground arith
live_in_mono es fs (id ∷ ids) (h, hs) = let ih = live_in_mono es fs ids hs in ground arith

pub live_in-append :
    (es : List (ℕ × ConnEntry)) (xs : List ℕ) (n : ℕ)
    → live_in es (xs ++ n ∷ []) ≤ live_in es xs + 1
unfolding live_in
live_in-append es [] n = ground arith
live_in-append es (x ∷ xs) n = let ih = live_in-append es xs n in ground arith

All-of {ℓ} : {P : ℕ → Type ℓ} (xs : List ℕ) → ((x : ℕ) → P x) → All P xs
All-of [] h = tt
All-of (x ∷ xs) h = (h x, All-of xs h)

-- No connection of the map comes to life, and the rest of the pool is as it was.
pub record Calms (p q : Pool) : Type 0 where
  pub same_conns : q.conns ≡ p.conns
  pub same_dialling : q.dialling ≡ p.dialling
  pub same_id : q.next_id ≡ p.next_id
  pub same_max : q.max_conns_per_key ≡ p.max_conns_per_key
  pub quiet : (id : ℕ) → is_live q.entries id ≡ true → is_live p.entries id ≡ true

pub Calms-refl : (p : Pool) → Calms p p
Calms-refl p = record {
  same_conns = refl;
  same_dialling = refl;
  same_id = refl;
  same_max = refl;
  quiet = λ id h. h;
}

pub put_entry-Calms :
    (p : Pool) (id : ℕ) (e f : ConnEntry)
    → lookup id p.entries ≡ some e
    → (entry_closed f ≡ false → entry_closed e ≡ false)
    → Calms p (put_entry p id f)
unfolding put_entry
put_entry-Calms p id e f here alive = record {
  same_conns = refl;
  same_dialling = refl;
  same_id = refl;
  same_max = refl;
  quiet = λ j h.
      let l = lookup-insert id j f p.entries in
      elim (Bool-cases (id == j)) [
        | inl same ↦
            let open_before : entry_closed e ≡ false = alive (ground arith) in
            subst (λ k. is_live p.entries k ≡ true) ((==_iff id j).0 same) (ground arith)
        | inr other ↦ ground arith
      ];
}

pub change-Calms :
    (f : ConnEntry → ConnEntry)
    → ((e : ConnEntry) → entry_closed (f e) ≡ false → entry_closed e ≡ false)
    → (p : Pool) (id : ℕ) → Calms p (change f p id)
change-Calms f alive p id = go (lookup id p.entries) refl
  where
    go :
        (o : Option ConnEntry)
        → lookup id p.entries ≡ o
        → Calms p (elim o as (λ _. Pool) [ none ↦ p | some e ↦ put_entry p id (f e) ])
    go none h = Calms-refl p
    go (some e) h = put_entry-Calms p id e (f e) h (alive e)

-- What a search gives, if it gives anything.
abbrev pub Finds : Pool → Option Pool → Type 0
Finds p none = Unit
Finds p (some q) = Calms p q

pub take_lease-Calms :
    (p : Pool) (id : ℕ) (e : ConnEntry)
    → lookup id p.entries ≡ some e
    → entry_closed e ≡ false
    → Finds p (take_lease p id e)
unfolding take_lease
take_lease-Calms p id e here alive =
    if_cases (Finds p) e.multiplexed (λ _. put_entry-Calms p id e _ here (λ _. alive))
      (λ _. if_cases (Finds p) e.idle (λ _. put_entry-Calms p id e _ here (λ _. alive)) (λ _. tt))

try_entry-Calms : (p : Pool) (id : ℕ) → Finds p (try_entry p id)
unfolding try_entry
try_entry-Calms p id = go (lookup id p.entries) refl
  where
    go :
        (o : Option ConnEntry)
        → lookup id p.entries ≡ o
        → Finds p (elim o as (λ _. Option Pool) [
          | none ↦ none
          | some e ↦ if eligible p e then take_lease p id e else none
        ])
    go none h = tt
    go (some e) h =
        if_cases (Finds p) (eligible p e)
          (λ k. take_lease-Calms p id e h (unfold eligible in ground arith)) (λ _. tt)

reuse_in-Calms : (p : Pool) (ids : List ℕ) → Finds p (reuse_in p ids)
unfolding reuse_in
reuse_in-Calms p [] = tt
reuse_in-Calms p (id ∷ ids) = go (try_entry p id) (try_entry-Calms p id) (reuse_in-Calms p ids)
  where
    go :
        (o : Option Pool)
        → Finds p o
        → Finds p (reuse_in p ids)
        → Finds p (elim o as (λ _. Option Pool) [ some q ↦ some q | none ↦ reuse_in p ids ])
    go none v w = w
    go (some q) v w = v

pub drop_lease-alive :
    (e : ConnEntry) → entry_closed (drop_lease e) ≡ false → entry_closed e ≡ false
unfolding drop_lease entry_closed
drop_lease-alive e h = ground arith

-- At most `max_conns_per_key` entries of a key are live, fewer while a call connects for it.
pub record Capped (p : Pool) : Type 0 where
  pub some_room : 0 < p.max_conns_per_key
  pub cap : (key : ℕ) → live p key ≤ p.max_conns_per_key
  pub room : (key : ℕ) → contains key p.dialling ≡ true → live p key < p.max_conns_per_key
  pub old : (key : ℕ) → All (λ id. id < p.next_id) (ids_of p key)

pub calm : (p q : Pool) → Calms p q → Capped p → Capped q
calm p q c v = record {
  some_room = subst (λ n. 0 < n) (sym c.same_max) v.some_room;
  cap = λ key. let f = fewer key in let m = c.same_max in let o = v.cap key in omega arith;
  room = λ key h.
      let f = fewer key in
      let m = c.same_max in
      let o = v.room key (subst (λ d. contains key d ≡ true) c.same_dialling h) in omega arith;
  old = λ key.
      subst (λ n. All (λ id. id < n) (ids_of q key)) (sym c.same_id)
        (subst (All (λ id. id < p.next_id)) (sym (same_ids key)) (v.old key));
}
  where
    same_ids : (key : ℕ) → ids_of q key ≡ ids_of p key
    same_ids key =
        ap
          (λ (m : List (ℕ × List ℕ)). elim (lookup key m) as (λ _. List ℕ) [
            | none ↦ []
            | some ids ↦ ids
          ])
          c.same_conns

    fewer : (key : ℕ) → live q key ≤ live p key
    fewer key =
        subst (λ xs. live_in q.entries xs ≤ live_in p.entries (ids_of p key)) (sym (same_ids key))
          (live_in_mono p.entries q.entries (ids_of p key) (All-of (ids_of p key) c.quiet))

found : (p : Pool) (o : Option Pool) → Finds p o → Capped p → (q : Pool) → o ≡ some q → Capped q
found p none c v q e = absurd (ground arith)
found p (some r) c v q e = calm p q (subst (Finds p) e c) v

pub acquire_start-Capped : (p : Pool) (key : ℕ) → Capped p → Capped (acquire_start p key).0
unfolding acquire_start reuse
acquire_start-Capped p key v =
    if_cases (λ (r : Pool × Acquired). Capped r.0) p.closed (λ _. v)
      (λ _. go (reuse_in p (ids_of p key)) (reuse_in-Calms p (ids_of p key)))
  where
    go :
        (o : Option Pool)
        → Finds p o
        → Capped (elim o as (λ _. Pool × Acquired) [ some q ↦ (q, leased) | none ↦ (p, goes_on) ]).0
    go none c = v
    go (some q) c = calm p q c v

dial-Capped :
    (p : Pool) (key : ℕ)
    → live p key < p.max_conns_per_key
    → Capped p
    → Capped (record p { dialling = insert key tt p.dialling })
dial-Capped p key some_place v = record {
  some_room = v.some_room;
  cap = v.cap;
  room = λ j h. elim (Bool-cases (key == j)) [
    | inl same ↦ subst (λ k. live p k < p.max_conns_per_key) ((==_iff key j).0 same) some_place
    | inr other ↦ v.room j (let l = lookup-insert key j tt p.dialling in ground arith)
  ];
  old = v.old;
}

pub acquire_locked-Capped : (p : Pool) (key : ℕ) → Capped p → Capped (acquire_locked p key).0
unfolding acquire_locked reuse
acquire_locked-Capped p key v = go (reuse_in p (ids_of p key)) (reuse_in-Calms p (ids_of p key))
  where
    go :
        (o : Option Pool)
        → Finds p o
        → Capped
            (elim o as (λ _. Pool × Acquired) [
              | some q ↦ (q, leased)
              | none ↦
                  if leb p.max_conns_per_key (live p key)
                  then (p, fails err_connect)
                  else (record p { dialling = insert key tt p.dialling }, goes_on)
            ]).0
    go none c =
        if_cases (λ (r : Pool × Acquired). Capped r.0) (leb p.max_conns_per_key (live p key))
          (λ _. v) (λ b. dial-Capped p key (ground arith) v)
    go (some q) c = calm p q c v

pub undial-Capped :
    (p : Pool) (key : ℕ) → Capped p → Capped (record p { dialling = remove key p.dialling })
undial-Capped p key v = record {
  some_room = v.some_room;
  cap = v.cap;
  room = λ j h. v.room j (let l = lookup-remove key j p.dialling in ground arith);
  old = v.old;
}

pub shutdown-Capped : (p : Pool) → Capped p → Capped (shutdown p)
unfolding shutdown
shutdown-Capped p v = record {
  some_room = v.some_room;
  cap = λ key. unfold lookup in unfold live_in in ground arith;
  room = λ key h. let r = v.some_room in unfold lookup in unfold live_in in ground arith;
  old = λ key. unfold lookup in tt;
}
