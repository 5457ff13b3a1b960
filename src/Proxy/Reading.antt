-- ===== src/Proxy/Reading.antt =====
-- lib/src/client/proxy.rs: the loop of `tunnel` that reads the proxy's answer.
use hyper4k.Prelude.{
  bind_some, ℕ, ◌+◌, ◌≤◌, ◌<◌, ◌≡◌, refl, sym, ap, ◌∙◌, subst, true, false, List, [], ◌∷◌, ◌++◌,
  arith, append_assoc, append-nil, length, length-append, All, inl, inr, ltb, if_cases,
}
use hyper4k.Headers.{Bytes}
use hyper4k.Text.{contains, first_line, nth_word, parse_u16}
use hyper4k.Text.Search.{contains-split}
use hyper4k.Text.Lines.{IsAscii, IsAscii-of_append, from_utf8-ascii, first_line-append}
use hyper4k.Timed.{Timed, ends, never, later}
use hyper4k.Proxy.{Read, gives, breaks, crlf_crlf, read_head, status_of}

-- All bytes that the reads give.
abbrev pub arrived : List (ℕ × Read) → Bytes
arrived [] = []
arrived ((t, gives b) ∷ reads) = b ++ arrived reads
arrived ((t, breaks) ∷ reads) = arrived reads

-- A read that gives at least one byte.
abbrev pub Flows : ℕ × Read → Type 0
Flows (t, gives []) = ⊥
Flows (t, gives (c ∷ b)) = Unit {0}
Flows (t, breaks) = ⊥

-- What the loop comes to: the answer up to the end of some read, which holds the end mark.
pub record Finds (all : Bytes) (m : Timed Bytes) : Type 0 where
  pub time : ℕ
  pub head : Bytes
  pub behind : Bytes
  pub found : m ≡ ends time (inr head)
  pub whole : all ≡ head ++ behind
  pub marked : contains crlf_crlf head ≡ true

Finds-later : (t : ℕ) {all : Bytes} (m : Timed Bytes) → Finds all m → Finds all (later t m)
Finds-later t m f = record {
  time = t + f.time;
  head = f.head;
  behind = f.behind;
  found = ap (later t) f.found;
  whole = f.whole;
  marked = f.marked;
}

pub read_head-Finds :
    (head : Bytes) (reads : List (ℕ × Read))
    → All Flows reads
    → contains crlf_crlf head ≡ false
    → contains crlf_crlf (head ++ arrived reads) ≡ true
    → length (head ++ arrived reads) ≤ 8192
    → Finds (head ++ arrived reads) (read_head head reads)
unfolding read_head
read_head-Finds head [] f unmarked marked fits =
    absurd (go (subst (λ h. contains crlf_crlf h ≡ true) (append-nil head) marked))
  where
    go : contains crlf_crlf head ≡ true → ⊥
    go e = cc
read_head-Finds head ((t, gives []) ∷ reads) f unmarked marked fits = absurd f.0
read_head-Finds head ((t, breaks) ∷ reads) f unmarked marked fits = absurd f.0
read_head-Finds head ((t, gives (c ∷ b)) ∷ reads) f unmarked marked fits =
    if_cases (Finds (head ++ (c ∷ b ++ arrived reads))) (contains crlf_crlf next)
      (λ here. record {
        time = t;
        head = next;
        behind = arrived reads;
        found = refl;
        whole = assoc;
        marked = here;
      })
      (λ not_yet.
        if_cases (Finds (head ++ (c ∷ b ++ arrived reads))) (ltb 8192 (length next))
          (λ big.
            absurd
              (omega (arith, length-append next (arrived reads), ltb→ (length next) big, short)))
          (λ small.
            subst (λ all. Finds all (later t (read_head next reads))) (sym assoc)
              (Finds-later t (read_head next reads) (
                read_head-Finds next reads f.1 not_yet
                  (subst (λ h. contains crlf_crlf h ≡ true) assoc marked) short))))
  where
    next : Bytes
    next = head ++ c ∷ b

    assoc : head ++ (c ∷ b ++ arrived reads) ≡ next ++ arrived reads
    assoc = sym (append_assoc head (c ∷ b) (arrived reads))

    short : length (next ++ arrived reads) ≤ 8192
    short = subst (λ h. length h ≤ 8192) assoc fits

    ltb→ : (n : ℕ) → ltb 8192 n ≡ true → 8192 < n
    ltb→ n e = ground arith

-- A part of an ASCII answer that holds the end mark has the status of the whole.
pub status_of-head :
    (head behind : Bytes)
    → IsAscii (head ++ behind)
    → contains crlf_crlf head ≡ true
    → status_of head ≡ status_of (head ++ behind)
unfolding status_of
status_of-head head behind ascii marked = rw (from_utf8-ascii (head ++ behind) ascii) (
    rw (from_utf8-ascii head (IsAscii-of_append head behind ascii)) (
      ap (λ l. bind_some l (λ w. bind_some (nth_word 1 w) parse_u16))
        (go (contains-split crlf_crlf head marked))))
  where
    go :
        ((l : Bytes) × (r : Bytes) × (head ≡ l ++ (crlf_crlf ++ r)))
        → first_line head ≡ first_line (head ++ behind)
    go (l, r, p) =
        ap first_line at_feed
        ∙ sym (first_line-append (l ++ 13 ∷ []) (13 ∷ 10 ∷ r) behind)
        ∙ ap first_line (sym (ap (λ h. h ++ behind) at_feed))
      where
        at_feed : head ≡ (l ++ 13 ∷ []) ++ 10 ∷ 13 ∷ 10 ∷ r
        at_feed = p ∙ sym (append_assoc l (13 ∷ []) (10 ∷ 13 ∷ 10 ∷ r))

-- A read fills at most the buffer.
abbrev pub FitsBuffer : ℕ × Read → Type 0
FitsBuffer (t, gives b) = length b ≤ 1024
FitsBuffer (t, breaks) = Unit {0}

-- What the loop holds when it ends: at most 8 KiB and a buffer, with the end mark in it.
abbrev pub HeadIsBounded : Timed Bytes → Type 0
HeadIsBounded (ends t (inr head)) = (length head ≤ 9216) × (contains crlf_crlf head ≡ true)
HeadIsBounded _ = Unit {0}

HeadIsBounded-later : (t : ℕ) (m : Timed Bytes) → HeadIsBounded m → HeadIsBounded (later t m)
HeadIsBounded-later t (ends u (inl kind)) h = tt
HeadIsBounded-later t (ends u (inr head)) h = h
HeadIsBounded-later t never h = tt

-- If no read brings more than the buffer of 1024 bytes holds, an answer that the loop accepts has its
-- end mark and is at most 9 KiB long, whatever else the proxy sends.
pub read_head-HeadIsBounded :
    (head : Bytes) (reads : List (ℕ × Read))
    → All FitsBuffer reads
    → length head ≤ 8192
    → HeadIsBounded (read_head head reads)
unfolding read_head
read_head-HeadIsBounded head [] f h = tt
read_head-HeadIsBounded head ((t, breaks) ∷ reads) f h = tt
read_head-HeadIsBounded head ((t, gives []) ∷ reads) f h = tt
read_head-HeadIsBounded head ((t, gives (c ∷ b)) ∷ reads) f h =
    let next = head ++ c ∷ b in
    if_cases HeadIsBounded (contains crlf_crlf next)
      (λ here. (omega (arith, length-append head (c ∷ b), f.0), here))
      (λ not_yet.
        if_cases HeadIsBounded (ltb 8192 (length next)) (λ big. tt)
          (λ small.
            HeadIsBounded-later t (read_head next reads)
              (read_head-HeadIsBounded next reads f.1 (ground arith))))
