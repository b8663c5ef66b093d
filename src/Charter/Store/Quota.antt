-- ===== src/Charter/Store/Quota.antt =====
-- The quotas: five requests in any sixty seconds, and one POST in a run.
use sentinel_security_platfo.Base.{
  ℕ, ◌+◌, ◌≤◌, ◌<◌, String, ◌≡◌, refl, Bool, false, none, ◌&&◌, List, [], ◌∷◌, count_if, All, leb,
  ltb, arith, eq_iff, Bool-cases, inl, inr,
}
use sentinel_security_platfo.Base.Count.{count_if-update, update-All, count_if-le, count_if_of_any}
use sentinel_security_platfo.Charter.Spec.{seconds}
use sentinel_security_platfo.Charter.Store.{
  RequestRow, RequestStore, row_id, is_revoked, recovered_row, recovered_rows, open_store,
  write_state, update_state, insert_event, set_state, empty_store,
}
use sentinel_security_platfo.Charter.Store.Authorize.{
  recent_requests, is_recent, is_post_of, has_post, add_decision, add_revocation, add_request,
}
use sentinel_security_platfo.Charter.Store.Steps.{
  Write, decide, revoke, reserve, move, recover, overwrite, log,
}
use sentinel_security_platfo.Charter.Store.History.{History, History_induction}

-- The sixty seconds that follow the clock reading `w`.
abbrev pub in_window : ℕ → RequestRow → Bool
in_window w r = ltb w r.ts && leb r.ts (w + seconds 60)

abbrev pub WasMadeBy : ℕ → RequestRow → Type 0
WasMadeBy now r = r.ts ≤ now

pub record IsMetered (now : ℕ) (s : RequestStore) : Type 0 where
  pub past : All (WasMadeBy now) s.requests
  pub window : (w : ℕ) → count_if (in_window w) s.requests ≤ 5
  pub posts : (run : String) → count_if (is_post_of run) s.requests ≤ 1

count_if-recovered_rows :
    (test : RequestRow → Bool)
    → ((r : RequestRow) → test (recovered_row r) ≡ test r)
    → (rows : List RequestRow) → count_if test (recovered_rows rows) ≡ count_if test rows
unfolding count_if recovered_rows
count_if-recovered_rows test same [] = refl
count_if-recovered_rows test same (r ∷ rows) =
    ground (arith, same r, count_if-recovered_rows test same rows)

recovered_rows-past :
    (now : ℕ) (rows : List RequestRow)
    → All (WasMadeBy now) rows
    → All (WasMadeBy now) (recovered_rows rows)
unfolding recovered_rows
recovered_rows-past now [] h = tt
recovered_rows-past now (r ∷ rows) h = (h.0, recovered_rows-past now rows h.1)

later_past :
    (c now : ℕ) (rows : List RequestRow)
    → c ≤ now
    → All (WasMadeBy c) rows
    → All (WasMadeBy now) rows
later_past c now [] le h = tt
later_past c now (r ∷ rows) le h = (omega (arith, h.0), later_past c now rows le h.1)

-- A window that holds the clock reading `now` holds only recent rows besides.
window-le-recent :
    (w now : ℕ) (rows : List RequestRow)
    → now ≤ w + seconds 60
    → count_if (in_window w) rows ≤ recent_requests now rows
unfolding recent_requests
window-le-recent w now rows le =
    count_if-le (in_window w) (is_recent now) (λ r h. ground arith) rows

-- Reserving a row at `now`, with fewer than five recent ones, overfills no window.
reserve-window :
    (w now : ℕ) (r : RequestRow) (rows : List RequestRow)
    → r.ts ≡ now
    → recent_requests now rows < 5
    → count_if (in_window w) rows ≤ 5
    → count_if (in_window w) (r ∷ rows) ≤ 5
unfolding count_if
reserve-window w now r rows at room h = ground (arith, window-le-recent w now rows)

-- The first POST of its run is the only one.
first_post :
    (run : String) (r : RequestRow) (rows : List RequestRow)
    → r.run ≡ run
    → has_post r.run rows ≡ false
    → count_if (is_post_of run) (r ∷ rows) ≤ 1
unfolding count_if has_post
first_post run r rows same none_before =
    let none_of_run : has_post run rows ≡ false = rw same at none_before in
    ground (arith, count_if_of_any (is_post_of run) rows none_of_run)

reserve-posts :
    (run : String) (r : RequestRow) (rows : List RequestRow)
    → (r.method ≡ "POST" → has_post r.run rows ≡ false)
    → count_if (is_post_of run) rows ≤ 1
    → count_if (is_post_of run) (r ∷ rows) ≤ 1
unfolding count_if
reserve-posts run r rows post h = elim (Bool-cases (is_post_of run r)) [
  | inl e ↦
      first_post run r rows (ground (arith, eq_iff r.run run))
        (post (ground (arith, eq_iff r.method "POST")))
  | inr e ↦ rw e h
]

-- Every write keeps the quotas: only a reservation adds a row, and it was tested first.
Write-IsMetered : (now : ℕ) (s t : RequestStore) → Write now s t → IsMetered now s → IsMetered now t
unfolding add_decision add_revocation add_request write_state open_store update_state insert_event
Write-IsMetered now s t (decide d s' new) h = record {
  past = h.past;
  window = h.window;
  posts = h.posts;
}
Write-IsMetered now s t (revoke v s') h = elim (Bool-cases (is_revoked v.request_id s)) [
  | inl e ↦ rw e h
  | inr e ↦ rw e (record { past = h.past; window = h.window; posts = h.posts })
]
Write-IsMetered now s t (reserve r s' new live room post at fresh) h = record {
  past = (omega (arith, at), h.past);
  window = λ w. reserve-window w now r s.requests at room (h.window w);
  posts = λ run. reserve-posts run r s.requests post (h.posts run);
}
Write-IsMetered now s t (move i from to receipt s' found legal) h =
    let f = set_state to receipt in
    record {
      past = update-All row_id f (λ r k. k) i s.requests h.past;
      window =
          λ w. rw (count_if-update row_id f (in_window w) (λ r. refl) i s.requests) (h.window w);
      posts = λ run.
          rw (count_if-update row_id f (is_post_of run) (λ r. refl) i s.requests) (h.posts run);
    }
Write-IsMetered now s t (recover s') h = record {
  past = recovered_rows-past now s.requests h.past;
  window = λ w. rw (count_if-recovered_rows (in_window w) (λ r. refl) s.requests) (h.window w);
  posts = λ run. rw (count_if-recovered_rows (is_post_of run) (λ r. refl) s.requests) (h.posts run);
}
Write-IsMetered now s t (overwrite i to s' ends) h =
    let f = set_state to none in
    record {
      past = update-All row_id f (λ r k. k) i s.requests h.past;
      window =
          λ w. rw (count_if-update row_id f (in_window w) (λ r. refl) i s.requests) (h.window w);
      posts = λ run.
          rw (count_if-update row_id f (is_post_of run) (λ r. refl) i s.requests) (h.posts run);
    }
Write-IsMetered now s t (log i to s' ends) h = record {
  past = h.past;
  window = h.window;
  posts = h.posts;
}

wait-IsMetered : (c now : ℕ) (s : RequestStore) → c ≤ now → IsMetered c s → IsMetered now s
wait-IsMetered c now s le h = record {
  past = later_past c now s.requests le h.past;
  window = h.window;
  posts = h.posts;
}

-- In every history under a clock that does not run backwards, from a store that keeps the quotas
-- and has no row from the future, at most five requests are reserved in any sixty seconds, and at
-- most one POST in any run, whoever calls and in whatever order.
pub History-IsMetered :
    {start : ℕ} {s : RequestStore} {now : ℕ} {t : RequestStore}
    → History start s now t
    → IsMetered start s
    → IsMetered now t
History-IsMetered = History_induction IsMetered wait-IsMetered Write-IsMetered

pub empty_store-IsMetered : (now : ℕ) → IsMetered now empty_store
unfolding count_if
empty_store-IsMetered now = record {
  past = tt;
  window = λ w. omega arith;
  posts = λ run. omega arith;
}
