-- ===== src/Host/Tasks/Counters/Turns.antt =====
-- Every turn of src/host.rs counts the reply that it makes.
use ce_pin.Prelude.{◌<◌, ◌+◌, ◌%◌, ◌^◌, arith, ap, ◌∙◌, ◌∷◌, [], ℕ, ◌≡◌, refl, Option, none, List}
use ce_pin.Prelude.Text.{Text}
use ce_pin.Prelude.Map
use ce_pin.Prelude.Map.{Map}
use ce_pin.Files.{Bytes}
use ce_pin.Audit.{Hashing}
use ce_pin.Host.{Host, HostState, Disk, height_or_zero}
use ce_pin.Host.Offer.{drop_expired}
use ce_pin.Host.Requests.{manifest_of}
use ce_pin.Host.Gc.{gc_held, run_gc}
use ce_pin.Host.Dispatch.{Gate, Call, Action}
use ce_pin.Host.Tasks.Cases.{check-elim, dispatch-elim}
use ce_pin.Host.Tasks.{turn_away}
use ce_pin.Prelude.{◌≢◌}
use ce_pin.Host.Dispatch.{
  Failure, bad_payload, bad_sender, unknown_action, missing_caps, bad_capability, denied,
  bad_request, save_error,
}
use ce_pin.Host.Tasks.{
  Task, arrived, authorized, asking_height, fetching, reading_audit, reading_status, finished,
  refreshing, readvertising, collecting, ended, dispatch, resume, receive,
}
use ce_pin.Metrics.{HostMetrics, add_evictions}
use ce_pin.Host.{persist}
use ce_pin.Host.Offer.{admission_at}
use ce_pin.Host.Tasks.{check}
use ce_pin.Host.Tasks.Counters.{note_of, Counter, read, read-note, earned}
use ce_pin.Host.Gc.{readvertise, finish_gc, gc_dropped}
use ce_pin.Host.Tasks.Counters.Replies.{
  Noted, Counts, settle-Noted, answer_manifest-Noted, answer_status-Noted, do_renew-Noted,
  do_release-Noted, await_object-Noted, refresh_revoked-metrics, advertise_each-rest,
}

-- A refusal for another reason than a capability counts nothing.
turn_away-Noted : (s : HostState) (f : Failure) → f ≢ denied → Noted s (turn_away f s)
turn_away-Noted s bad_payload known = (refl, (refl, tt))
turn_away-Noted s bad_sender known = (refl, (refl, tt))
turn_away-Noted s unknown_action known = (refl, (refl, tt))
turn_away-Noted s missing_caps known = (refl, (refl, tt))
turn_away-Noted s bad_capability known = (refl, (refl, tt))
turn_away-Noted s bad_request known = (refl, (refl, tt))
turn_away-Noted s save_error known = (refl, (refl, tt))
turn_away-Noted s denied known = elim (known refl) [ ]

module _ (host : Host) (hs : Hashing) (gate : Gate) where
  pub check-Noted :
      (call : Call) (from_hex : Text) (payload from : Option Bytes) (action : Option Action)
      (s : HostState)
      → Noted s (check host gate call from_hex payload from action s)
  check-Noted call from_hex payload from action s =
      check-elim host gate (Noted s) call from_hex payload from action s (turn_away-Noted s)
        (λ p k a caps chain sent has_caps has_chain refused. (refl, (refl, tt)))
        (λ p k a caps chain sent by named has_caps has_chain granted. (refl, (refl, tt)))

  pub dispatch-Noted :
      (call : Call) (action : Action) (from_hex : Text) (payload : Bytes) (s : HostState)
      → Noted s (dispatch host gate call action from_hex payload s)
  dispatch-Noted call action from_hex payload s =
      dispatch-elim host gate (Noted s) call action from_hex payload s (refl, (refl, tt))
        (λ req is_offer good held. (refl, (refl, tt))) (λ req is_offer good. (refl, (refl, tt)))
        (λ req is_audit good held. (refl, (refl, tt))) (λ req. (refl, (refl, tt)))
        (λ req is_status good held. (refl, (refl, tt))) (λ req. (refl, (refl, tt)))
        (λ req is_renew good. do_renew-Noted host call.disk call.now req s)
        (λ req is_release good. do_release-Noted host call.disk req s)

  finish_gc-read :
      (c : Counter) (disk : Disk) (dropped : List Text) (s : HostState)
      → read c (finish_gc host disk dropped s).metrics ≡ read c s.metrics
  unfolding add_evictions persist
  finish_gc-read c disk [] s = refl
  finish_gc-read c disk (cid ∷ cids) s = ground arith

  -- A collection counts what it drops, which is of no reply.
  run_gc-read :
      (c : Counter) (answer : Option ℕ) (disk : Disk) (s : HostState)
      → read c (run_gc host answer disk s).metrics ≡ read c s.metrics
  unfolding run_gc
  run_gc-read c answer disk s =
      finish_gc-read c disk (gc_dropped host (height_or_zero answer) s.held)
        (record s { held = gc_held host (height_or_zero answer) s.held })

  counted :
      (c : Counter) (m : HostMetrics) (p : Task × HostState)
      → read c m < 2 ^ 64
      → Counts m p
      → read c p.1.metrics ≡ (read c m + earned c (note_of p.0)) % 2 ^ 64
  counted c m p h e = ap (read c) e ∙ read-note c (note_of p.0) m h

  -- A turn adds to a counter what it adds to the replies.
  abbrev pub Adds : Counter → Task → HostState → Task × HostState → Type 0
  Adds c t s (t', s') =
      (n : ℕ) × (read c s'.metrics ≡ (read c s.metrics + n) % 2 ^ 64)
      × (earned c (note_of t') ≡ earned c (note_of t) + n)

  replying :
      (c : Counter) (t : Task) (s : HostState)
      → note_of t ≡ none
      → read c s.metrics < 2 ^ 64
      → Counts s.metrics (resume host hs gate t s)
      → Adds c t s (resume host hs gate t s)
  replying c t s none_yet h e = (
    earned c (note_of (resume host hs gate t s).0),
    counted c s.metrics (resume host hs gate t s) h e,
    omega (arith, ap (earned c) none_yet),
  )

  pub resume-Adds :
      (c : Counter) (t : Task) (s : HostState)
      → read c s.metrics < 2 ^ 64
      → Adds c t s (resume host hs gate t s)
  unfolding resume receive readvertise drop_expired
  resume-Adds c (arrived r) s h =
      replying c (arrived r) s refl h (check-Noted r.call r.from_hex _ _ _ s).0
  resume-Adds c (authorized call action from_hex payload) s h =
      replying c (authorized call action from_hex payload) s refl h
        (dispatch-Noted call action from_hex payload s).0
  resume-Adds c (asking_height call req publisher) s h =
      replying c (asking_height call req publisher) s refl h
        (await_object-Noted call req publisher (admission_at host call.offer.height req s).0
          (admission_at host call.offer.height req s).1).0
  resume-Adds c (fetching call req publisher already_held) s h =
      replying c (fetching call req publisher already_held) s refl h
        (settle-Noted host call.offer req publisher already_held s call.offer.fetched).0
  resume-Adds c (reading_audit call req) s h =
      replying c (reading_audit call req) s refl h
        (answer_manifest-Noted hs call.blobs req s (manifest_of call.blobs req.cid)).0
  resume-Adds c (reading_status call req) s h =
      replying c (reading_status call req) s refl h
        (answer_status-Noted call.blobs req s (manifest_of call.blobs req.cid)).0
  resume-Adds c (finished reply) s h = (0, omega (arith, h), omega arith)
  resume-Adds c (refreshing pairs) s h =
      replying c (refreshing pairs) s refl h (refresh_revoked-metrics hs pairs s)
  resume-Adds c readvertising s h =
      replying c readvertising s refl h (advertise_each-rest (Map.keys s.held.entries) _).0
  resume-Adds c (collecting height disk) s h =
      (0, omega (arith, h, run_gc-read c height disk s), omega arith)
  resume-Adds c ended s h = (0, omega (arith, h), omega arith)
