-- ===== src/Client/Requests/Submission.antt =====
-- lib/src/client/handle.rs: what `hyper4k_client_send` does, refused or accepted.
use hyper4k.Prelude.{
  is_some, ℕ, ◌+◌, ◌*◌, ◌%◌, ◌^◌, ◌≡◌, ◌≢◌, refl, Bool, true, false, not, ◌&&◌, Option, none, some,
  arith, ◌==◌, length, lookup, insert, lookup-insert, lookup-insert_same, ◌⊎◌, inl, inr,
}
use hyper4k.Abi.{Hyper4kStatus, status_ok, status_invalid_arg, status_resource_exhausted}
use hyper4k.Retry.{Method}
use hyper4k.Options.{Bytes, Hyper4kClientRequest}
use hyper4k.Bridge.State.{spawn, enter}
use hyper4k.Client.Limits.{try_reserve}
use hyper4k.Proxy.{Uri}
use hyper4k.Client.Setup.{Platform, Client, require, require_some, and_then}
use hyper4k.Client.Requests.{
  RequestTemplate, build_template, target_of, prepare, policy_of, Submitted, refused, submit,
  hyper4k_client_send,
}

-- A check that fails gives no OK, and what passes satisfies `P`.
abbrev pub Checked : {A : Type 0} → (A → Type 0) → Hyper4kStatus ⊎ A → Type 0
Checked P (inl st) = st ≢ status_ok
Checked P (inr a) = P a

pub require-Checked :
    {A : Type 0} (P : A → Type 0) (b : Bool) (st : Hyper4kStatus) (go : Hyper4kStatus ⊎ A)
    → (b ≡ false → st ≢ status_ok)
    → (b ≡ true → Checked P go)
    → Checked P (require b st go)
unfolding require
require-Checked P true st go bad good = good refl
require-Checked P false st go bad good = bad refl

pub require_some-Checked :
    {A B : Type 0} (P : A → Type 0) (o : Option B) (st : Hyper4kStatus) (go : B → Hyper4kStatus ⊎ A)
    → st ≢ status_ok
    → ((b : B) → o ≡ some b → Checked P (go b))
    → Checked P (require_some o st go)
unfolding require_some
require_some-Checked P none st go bad good = bad
require_some-Checked P (some b) st go bad good = good b refl

and_then-Checked :
    {A B : Type 0} (P : A → Type 0) (Q : B → Type 0) (x : Hyper4kStatus ⊎ A)
    (go : A → Hyper4kStatus ⊎ B)
    → Checked P x
    → ((a : A) → P a → Checked Q (go a))
    → Checked Q (and_then x go)
unfolding and_then
and_then-Checked P Q (inl st) go v good = v
and_then-Checked P Q (inr a) go v good = good a v

pub invalid : status_invalid_arg ≢ status_ok
invalid = ground arith

-- The transport that the client can offer.
abbrev pub Serves : Client → RequestTemplate → Type 0
Serves c t =
    (c.closed ≡ false)
    × (c.h2_required ≡ true → t.https ≡ true)
    × (t.https ≡ true → is_some c.tls_pool ≡ true)
    × (t.absolute_form ≡ (c.via_proxy && not t.https))

abbrev Prepared : Client → Hyper4kClientRequest × RequestTemplate → Type 0
Prepared c (r, t) = Serves c t

module _ (p : Platform) (c : Client) where
  -- HTTP/2 is not spoken in the clear.
  abbrev Target : Uri × Bytes × ℕ × Bool → Type 0
  Target (uri, host, port, https) = c.h2_required ≡ true → https ≡ true

  target_of-Checked : (r : Hyper4kClientRequest) → Checked Target (target_of p c r)
  unfolding target_of
  target_of-Checked r = require_some-Checked Target _ _ _ invalid (λ url _.
      require-Checked Target _ _ _ (λ _. invalid)
        (λ _. require_some-Checked Target _ _ _ invalid (λ uri _.
          require_some-Checked Target _ _ _ invalid (λ host _.
            require_some-Checked Target _ _ _ invalid (λ port _.
              require-Checked Target _ _ _ (λ _. invalid)
                (λ known.
                  require-Checked Target _ _ _ (λ _. ground arith)
                    (λ allowed. λ h2. ground arith)))))))

  build_template-Checked :
      (r : Hyper4kClientRequest) (method : Method) (t : Uri × Bytes × ℕ × Bool)
      → c.closed ≡ false
      → Target t
      → Checked (Prepared c) (build_template p c r method t)
  unfolding build_template
  build_template-Checked r method (uri, host, port, https) live v =
      require_some-Checked (Prepared c) _ _ _ invalid (λ headers _.
        require_some-Checked (Prepared c) _ _ _ invalid (λ body _.
          require-Checked (Prepared c) _ _ _ (λ _. ground arith)
            (λ served.
              require-Checked (Prepared c) _ _ _ (λ _. invalid)
                (λ _. (live, v, ground arith, refl)))))

  prepare-Checked :
      (request : Option Bytes) (has_out has_on_headers has_on_done : Bool)
      → Checked (Prepared c) (prepare p c request has_out has_on_headers has_on_done)
  unfolding prepare
  prepare-Checked request has_out has_on_headers has_on_done =
      require_some-Checked (Prepared c) _ _ _ invalid (λ mem _.
        require-Checked (Prepared c) _ _ _ (λ _. invalid)
          (λ _.
            require-Checked (Prepared c) _ _ _ (λ bad. ground arith)
              (λ _.
                require-Checked (Prepared c) _ _ _ (λ _. ground arith)
                  (λ live. require_some-Checked (Prepared c) _ _ _ invalid (λ method_b _.
                    require_some-Checked (Prepared c) _ _ _ invalid (λ url_b _.
                      require_some-Checked (Prepared c) _ _ _ invalid (λ method _.
                        and_then-Checked Target (Prepared c) _ _ (target_of-Checked _)
                          (λ t v. build_template-Checked _ method t (ground arith) v))))))))

-- What an accepted call has done to the client, and what it gave back.
pub record Accepts (c : Client) (s : Submitted) : Type 0 where
  pub template : RequestTemplate
  pub request : Hyper4kClientRequest
  pub reserved : ℕ
  pub serves : Serves c template
  pub spawned : s.task ≡ some (template, policy_of c request)
  pub written : s.out_request_id ≡ some c.next_id
  pub counted : s.client.bridges ≡ enter c.bridges
  pub registered :
      lookup c.next_id s.client.requests ≡ some (spawn c.next_id c.queue_capacity (enter c.bridges))
  pub others : (j : ℕ) → (c.next_id == j) ≡ false → lookup j s.client.requests ≡ lookup j c.requests
  pub room :
      try_reserve c.limits (length template.body + c.queue_capacity * 64 * 1024)
      ≡ (s.client.limits, some reserved)

-- What a refused call leaves: nothing is registered, counted, written or started.
pub record Refuses (c : Client) (s : Submitted) : Type 0 where
  pub same_requests : s.client.requests ≡ c.requests
  pub same_bridges : s.client.bridges ≡ c.bridges
  pub same_gate : s.client.closed ≡ c.closed
  pub unwritten : s.out_request_id ≡ none
  pub idle : s.task ≡ none

submit-cases :
    (c : Client) (r : Hyper4kClientRequest) (t : RequestTemplate)
    → Serves c t
    → ((submit c r t).status ≡ status_ok → Accepts c (submit c r t))
      × ((submit c r t).status ≢ status_ok → Refuses c (submit c r t))
unfolding submit
submit-cases c r t v = go (try_reserve c.limits n).1 refl
  where
    n : ℕ
    n = length t.body + c.queue_capacity * 64 * 1024

    go :
        (o : Option ℕ)
        → (try_reserve c.limits n).1 ≡ o
        → let s : Submitted = elim o [
          | none ↦
              refused
                (record c {
                  next_id = (c.next_id + 1) % 2 ^ 64;
                  limits = (try_reserve c.limits n).0;
                })
                status_resource_exhausted
          | some m ↦ record {
            client = record c {
              next_id = (c.next_id + 1) % 2 ^ 64;
              limits = (try_reserve c.limits n).0;
              bridges = enter c.bridges;
              requests =
                  insert c.next_id (spawn c.next_id c.queue_capacity (enter c.bridges)) c.requests;
            };
            status = status_ok;
            out_request_id = some c.next_id;
            task = some (t, policy_of c r);
          }
        ] in
          (s.status ≡ status_ok → Accepts c s) × (s.status ≢ status_ok → Refuses c s)
    go none e = (
      λ h. absurd (ground arith),
      λ _. record {
        same_requests = refl;
        same_bridges = refl;
        same_gate = refl;
        unwritten = refl;
        idle = refl;
      },
    )
    go (some m) e = (
      λ _. record {
        template = t;
        request = r;
        reserved = m;
        serves = v;
        spawned = refl;
        written = refl;
        counted = refl;
        registered = lookup-insert_same c.next_id _ c.requests;
        others = λ j h. ground (
          arith,
          lookup-insert c.next_id j (spawn c.next_id c.queue_capacity (enter c.bridges)) c.requests,
        );
        room = ground arith;
      },
      λ h. absurd (h refl),
    )

-- A call of `send` that answers OK was made on an open client that can serve the transport: over TLS
-- only with a TLS pool, in the clear only if HTTP/2 is not required, with an absolute target only in
-- the clear through a proxy. The request is registered under the id that is written, with a bridge
-- that is counted and with room reserved for its body and its queue; no other request is touched.
-- Any other answer leaves the table, the count and the caller's id alone and starts no task.
pub send-cases :
    (p : Platform) (c : Client) (request : Option Bytes) (has_out has_on_headers has_on_done : Bool)
    → let s = hyper4k_client_send p c request has_out has_on_headers has_on_done in
      (s.status ≡ status_ok → Accepts c s) × (s.status ≢ status_ok → Refuses c s)
unfolding hyper4k_client_send
send-cases p c request has_out has_on_headers has_on_done =
    go (prepare p c request has_out has_on_headers has_on_done)
      (prepare-Checked p c request has_out has_on_headers has_on_done)
  where
    go :
        (x : Hyper4kStatus ⊎ (Hyper4kClientRequest × RequestTemplate))
        → Checked (Prepared c) x
        → let s : Submitted = elim x [
          | inl st ↦ refused c st
          | inr (r, template) ↦ submit c r template
        ] in
          (s.status ≡ status_ok → Accepts c s) × (s.status ≢ status_ok → Refuses c s)
    go (inl st) bad = (
      λ e. absurd (bad e),
      λ _. record {
        same_requests = refl;
        same_bridges = refl;
        same_gate = refl;
        unwritten = refl;
        idle = refl;
      },
    )
    go (inr (r, t)) v = submit-cases c r t v
