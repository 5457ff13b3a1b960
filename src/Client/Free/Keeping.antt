-- ===== src/Client/Free/Keeping.antt =====
-- lib/src/client/handle.rs: whatever happens on a client, its table and its bridge counter keep
-- together.
use hyper4k.Prelude.{
  ℕ, ◌+◌, ◌≤◌, ◌<◌, ◌^◌, ◌%◌, ◌≡◌, refl, sym, ap, ◌∙◌, subst, true, false, Option, none, some, List,
  [], ◌∷◌, All, arith, length, lookup, insert, if_cases, ◌*◌, lookup-remove,
}
use hyper4k.Abi.{status_ok, status_resource_exhausted}
use hyper4k.Options.{Hyper4kClientRequest}
use hyper4k.Bridge.State.{Callbacks, Slot, spawn, enter, leave}
use hyper4k.Bridge.Slice.{settle_slot}
use hyper4k.Bridge.Ops.{Op, settles, step}
use hyper4k.Bridge.Invariant.{spawn-Idle, step-Idle}
use hyper4k.Bridge.Progress.{Flows, spawn-Wake, step-Wake}
use hyper4k.Client.Limits.{try_reserve}
use hyper4k.Client.Setup.{Client}
use hyper4k.Client.Requests.{
  RequestTemplate, submit, Submitted, policy_of, cleanup, hyper4k_client_close, settle_all,
  client_closed, refused,
}
use hyper4k.Client.Free.{Event, submits, on, closes, settled, on_request, happen, happens}
use hyper4k.Client.Free.Table.{Apart-remove, remove-absent, length-remove, All-lookup, All-remove}
use hyper4k.Client.Free.Tended.{
  Cared, Tended, Cared-fresh, All-later, if_same, no_wrap, length-settle_all, Apart-settle_all,
}

module _ (cb : ℕ → Callbacks) (flows : (id : ℕ) → Flows (cb id)) (reserved : ℕ → ℕ) where
  step-Cared :
      (room next id : ℕ) (s : Slot) (op : Op)
      → Cared room next (id, s)
      → (step (cb id) s op).finished_flag ≡ false
      → Cared room next (id, step (cb id) s op)
  step-Cared room next id s op v f = record {
    given_out = v.given_out;
    unfinished = f;
    total = v.total;
    idle = step-Idle (cb id) s op v.idle;
    wake = step-Wake (cb id) (flows id) room v.total s op v.idle v.wake;
  }

  settled-Tended :
      (k : ℕ) (c : Client) (id : ℕ) (s t : Slot)
      → Tended k c
      → lookup id c.requests ≡ some s
      → k < 2 ^ 32
      → (t.finished_flag ≡ false → Cared c.queue_capacity c.next_id (id, t))
      → Tended k (settled cb reserved c id t)
  unfolding settled cleanup
  settled-Tended k c id s t v at small cared =
      let fewer = length-remove id c.requests s v.apart at in
      let rest =
        All-remove (Cared c.queue_capacity c.next_id) (Cared c.queue_capacity c.next_id) id
          c.requests (λ j w n a. a) v.entries in
      let apart = Apart-remove id c.requests v.apart in
      let counts = v.counts in
      let few = v.few in
      if_cases (Tended k) t.finished_flag
        (λ f. record {
          entries = rest;
          apart = apart;
          counts = unfold leave in omega (arith, fewer, counts, few, small);
          few = unfold leave in omega (arith, fewer, counts, few, small);
        })
        (λ f. record {
          entries = unfold insert in (cared f, rest);
          apart =
              unfold insert in
              (lookup-remove id id c.requests ∙ if_same id (lookup id c.requests), apart);
          counts = unfold insert in counts ∙ fewer;
          few = few;
        })

  pub on_request-Tended :
      (k : ℕ) (c : Client) (id : ℕ) (op : Op)
      → k < 2 ^ 32
      → Tended k c
      → Tended k (on_request cb reserved c id op)
  unfolding on_request
  on_request-Tended k c id op small v = go (lookup id c.requests) refl
    where
      go :
          (o : Option Slot)
          → lookup id c.requests ≡ o
          → Tended k (elim o as (λ _. Client) [
            | none ↦ c
            | some s ↦ settled cb reserved c id (step (cb id) s op)
          ])
      go none at = v
      go (some s) at = settled-Tended k c id s (step (cb id) s op) v at small (
          step-Cared c.queue_capacity c.next_id id s op
            (All-lookup (Cared c.queue_capacity c.next_id) id c.requests s v.entries at))

  submit-Tended :
      (k : ℕ) (c : Client) (r : Hyper4kClientRequest) (template : RequestTemplate)
      → k + 1 < 2 ^ 32
      → c.next_id + 1 < 2 ^ 64
      → Tended k c
      → Tended (k + 1) (submit c r template).client
  unfolding submit
  submit-Tended k c r template small ids v =
      go (try_reserve c.limits (length template.body + c.queue_capacity * 64 * 1024)).1
    where
      next_is : c.next_id + 1 ≡ (c.next_id + 1) % 2 ^ 64
      next_is = no_wrap c.next_id ids

      kept : All (Cared c.queue_capacity ((c.next_id + 1) % 2 ^ 64)) c.requests
      kept =
          subst (λ n. All (Cared c.queue_capacity n) c.requests) next_is
            (All-later c.queue_capacity c.next_id c.requests v.entries)

      absent : lookup c.next_id c.requests ≡ none
      absent = Cared-fresh c.queue_capacity c.next_id c.requests v.entries

      counted : enter c.bridges ≡ c.bridges + 1
      counted = let few = v.few in unfold enter in ground arith

      spawned :
          Cared c.queue_capacity
            ((c.next_id + 1) % 2 ^ 64)
            (c.next_id, spawn c.next_id c.queue_capacity (enter c.bridges))
      spawned = record {
        given_out = omega (arith, next_is);
        unfinished = unfold spawn in refl;
        total = enter c.bridges;
        idle =
            spawn-Idle c.next_id c.queue_capacity (enter c.bridges) (omega (arith, counted))
              (let few = v.few in omega (arith, counted, few, small));
        wake = spawn-Wake c.next_id c.queue_capacity (enter c.bridges);
      }

      go :
          (o : Option ℕ)
          → Tended
              (k + 1)
              (elim o as (λ _. Submitted) [
                | none ↦
                    refused
                      (record c {
                        next_id = (c.next_id + 1) % 2 ^ 64;
                        limits =
                            (try_reserve c.limits
                              (length template.body + c.queue_capacity * 64 * 1024)).0;
                      })
                      status_resource_exhausted
                | some n ↦ record {
                  client = record c {
                    next_id = (c.next_id + 1) % 2 ^ 64;
                    limits =
                        (try_reserve c.limits
                          (length template.body + c.queue_capacity * 64 * 1024)).0;
                    bridges = enter c.bridges;
                    requests =
                        insert c.next_id
                          (spawn c.next_id c.queue_capacity (enter c.bridges))
                          c.requests;
                  };
                  status = status_ok;
                  out_request_id = some c.next_id;
                  task = some (template, policy_of c r);
                }
              ]).client
      go none = record {
        entries = kept;
        apart = v.apart;
        counts = v.counts;
        few = let few = v.few in omega arith;
      }
      go (some n) = record {
        entries =
            unfold insert in
            (
              spawned,
              subst (All (Cared c.queue_capacity ((c.next_id + 1) % 2 ^ 64)))
                  (sym (remove-absent c.next_id c.requests absent)) kept,
            );
        apart =
            unfold insert in
            (
              subst (λ m. lookup c.next_id m ≡ none)
                  (sym (remove-absent c.next_id c.requests absent)) absent,
              Apart-remove c.next_id c.requests v.apart,
            );
        counts =
            unfold insert in
            (let gone = ap length (remove-absent c.next_id c.requests absent) in
              let counts = v.counts in omega (arith, gone, counted, counts));
        few = let few = v.few in omega (arith, counted);
      }

  submit-next_id :
      (c : Client) (r : Hyper4kClientRequest) (template : RequestTemplate)
      → c.next_id + 1 < 2 ^ 64
      → (submit c r template).client.next_id ≤ c.next_id + 1
  unfolding submit
  submit-next_id c r template ids = let e = no_wrap c.next_id ids in ground arith

  on_request-next_id :
      (c : Client) (id : ℕ) (op : Op) → (on_request cb reserved c id op).next_id ≤ c.next_id + 1
  unfolding on_request settled cleanup
  on_request-next_id c id op = ground arith

  closed_one :
      (room next id : ℕ) (s : Slot)
      → Cared room next (id, s)
      → Cared room next (id, settle_slot s client_closed true)
  unfolding step
  closed_one room next id s v =
      step-Cared room next id s (settles client_closed true) v
        (let u = v.unfinished in unfold settle_slot in ground arith)

  -- `close` settles every request.
  settle_all-Cared :
      (room next : ℕ) (m : List (ℕ × Slot))
      → All (Cared room next) m
      → All (Cared room next) (settle_all m)
  settle_all-Cared room next [] a = tt
  settle_all-Cared room next ((id, s) ∷ m) a =
      (closed_one room next id s a.0, settle_all-Cared room next m a.1)

  pub close-Tended : (k : ℕ) (c : Client) → Tended k c → Tended k (hyper4k_client_close c)
  unfolding hyper4k_client_close
  close-Tended k c v = record {
    entries = settle_all-Cared c.queue_capacity c.next_id c.requests v.entries;
    apart = Apart-settle_all c.requests v.apart;
    counts = v.counts ∙ sym (length-settle_all c.requests);
    few = v.few;
  }

  more : (k : ℕ) (c : Client) → Tended k c → Tended (k + 1) c
  more k c v = record {
    entries = v.entries;
    apart = v.apart;
    counts = v.counts;
    few = let few = v.few in omega arith;
  }

  happen-Tended :
      (k : ℕ) (c : Client) (e : Event)
      → k + 1 < 2 ^ 32
      → c.next_id + 1 < 2 ^ 64
      → Tended k c
      → Tended (k + 1) (happen cb reserved c e) × ((happen cb reserved c e).next_id ≤ c.next_id + 1)
  unfolding happen
  happen-Tended k c (submits r template) small ids v =
      (submit-Tended k c r template small ids v, submit-next_id c r template ids)
  happen-Tended k c (on id op) small ids v = (
    more k (on_request cb reserved c id op) (on_request-Tended k c id op (omega arith) v),
    on_request-next_id c id op,
  )
  happen-Tended k c closes small ids v = (
    more k (hyper4k_client_close c) (close-Tended k c v),
    unfold hyper4k_client_close in omega arith,
  )

  -- From a client without requests on, as long as the ids and the counter do not overflow.
  pub happens-Tended :
      (k : ℕ) (c : Client) (es : List Event)
      → k + length es < 2 ^ 32
      → c.next_id + length es < 2 ^ 64
      → Tended k c
      → Tended (k + length es) (happens cb reserved c es)
  unfolding happens
  happens-Tended k c [] small ids v = subst (λ n. Tended n c) (omega arith) v
  happens-Tended k c (e ∷ es) small ids v =
      let (w, next) = happen-Tended k c e (omega arith) (omega arith) v in
      subst (λ n. Tended n (happens cb reserved (happen cb reserved c e) es)) (omega arith)
        (happens-Tended (k + 1) (happen cb reserved c e) es (omega arith) (omega arith) w)
