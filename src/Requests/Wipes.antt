-- ===== src/Requests/Wipes.antt =====
-- `updateJanitorWipeStatus`: the list of wipes holds one entry for each destination, the latest.
use chameleon_vault.Prelude.{
  ℕ, String, ◌≡◌, refl, ◌≢◌, Bool, true, false, not, ◌&&◌, Option, none, some, List, [], ◌∷◌, arith,
  ◌==◌, eq_iff, eq_refl, find, put, if◌then◌else◌, all, ok,
}
use chameleon_vault.Requests.Types.{WipeStatus, Wipe, Details, Request}
use chameleon_vault.Requests.Repository.{Requests, upsert_wipe, update_janitor_wipe_status}

-- The entry of a destination.
unfoldable pub wipe_of : String → List Wipe → Option Wipe
wipe_of d [] = none
wipe_of d (w ∷ ws) = if w.destination == d then some w else wipe_of d ws

abbrev absent : String → List Wipe → Bool
absent d ws = all (λ w. not (w.destination == d)) ws

-- No destination has two entries.
abbrev pub distinct : List Wipe → Bool
distinct [] = true
distinct (w ∷ ws) = absent w.destination ws && distinct ws

pub wipe_of-upsert_wipe :
    (d : String) (w : Wipe) (ws : List Wipe)
    → wipe_of d (upsert_wipe w ws) ≡ (if w.destination == d then some w else wipe_of d ws)
unfolding wipe_of upsert_wipe
wipe_of-upsert_wipe d w [] = refl
wipe_of-upsert_wipe d w (x ∷ xs) = ground (
  arith,
  wipe_of-upsert_wipe d w xs,
  eq_iff x.destination w.destination,
  eq_iff x.destination d,
  eq_iff w.destination d,
)

absent-upsert_wipe :
    (d : String) (w : Wipe) (ws : List Wipe)
    → (w.destination == d) ≡ false
    → absent d ws ≡ true
    → absent d (upsert_wipe w ws) ≡ true
unfolding upsert_wipe
absent-upsert_wipe d w [] ne h = ground arith
absent-upsert_wipe d w (x ∷ xs) ne h = ground (arith, absent-upsert_wipe d w xs ne)

pub distinct-upsert_wipe :
    (w : Wipe) (ws : List Wipe) → distinct ws ≡ true → distinct (upsert_wipe w ws) ≡ true
unfolding upsert_wipe
distinct-upsert_wipe w [] h = refl
distinct-upsert_wipe w (x ∷ xs) h = ground (
  arith,
  distinct-upsert_wipe w xs,
  absent-upsert_wipe x.destination w xs,
  eq_iff x.destination w.destination,
  eq_iff w.destination x.destination,
)

-- What `update_janitor_wipe_status` leaves in a document that is there: the new entry under its own
-- destination, every other destination as it was, still one entry for each, and the status and the
-- history of the request untouched.
pub record Recorded (now : ℕ) (d : String) (status : WipeStatus) (details : Details)
    (old new : Request) : Type 0 where
  pub entry :
      wipe_of d new.janitor_wipes
      ≡ some (record { destination = d; status = status; updated_at = now; details = details })
  pub others : (j : String) → d ≢ j → wipe_of j new.janitor_wipes ≡ wipe_of j old.janitor_wipes
  pub one_each : distinct old.janitor_wipes ≡ true → distinct new.janitor_wipes ≡ true
  pub same_status : new.status ≡ old.status
  pub same_history : new.status_history ≡ old.status_history

-- Recording a wipe on a stored request succeeds and writes a request that is `Recorded`: the
-- destination has exactly this entry, the others keep theirs, and status and history stay.
pub update_janitor_wipe_status-Recorded :
    (now : ℕ) (id d : String) (status : WipeStatus) (details : Details) (m : Requests) (r : Request)
    → find id m ≡ some r
    → (new : Request) × (update_janitor_wipe_status now id d status details m
        ≡ (ok tt, put id new m))
      × Recorded now d status details r new
unfolding update_janitor_wipe_status
update_janitor_wipe_status-Recorded now id d status details m r here =
    let w : Wipe = record {
      destination = d;
      status = status;
      updated_at = now;
      details = details;
    } in
    (
      record r { janitor_wipes = upsert_wipe w r.janitor_wipes },
      ground arith,
      record {
        entry = ground (arith, wipe_of-upsert_wipe d w r.janitor_wipes, eq_refl d);
        others = λ j ne. ground (arith, wipe_of-upsert_wipe j w r.janitor_wipes, eq_iff d j);
        one_each = distinct-upsert_wipe w r.janitor_wipes;
        same_status = refl;
        same_history = refl;
      },
    )
