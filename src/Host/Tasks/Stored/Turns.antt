-- ===== src/Host/Tasks/Stored/Turns.antt =====
-- What each turn of src/host.rs does to the file of the held-set.
use ce_pin.Prelude.{
  ℕ, ◌≡◌, refl, sym, ap, subst, inl, inr, Option, none, some, List, [], ◌∷◌, get_elem?,
  Option-cases,
}
use ce_pin.Prelude.Text.{Text}
use ce_pin.Prelude.Map
use ce_pin.Files.{Bytes}
use ce_pin.Audit.{Hashing}
use ce_pin.Config.{Admission, admitted, rejected}
use ce_pin.Held.Storage.Recovery.{RoundTrips}
use ce_pin.Proto.{OfferReq, AuditReq, StatusReq, ReleaseResp}
use ce_pin.Host.{Host, HostState, advertise}
use ce_pin.Host.Offer.{admission_at}
use ce_pin.Proto.{service_host}
use ce_pin.Host.Requests.Cases.{answer_manifest-elim}
use ce_pin.Proto.{AuditResp}
use ce_pin.Host.Requests.{
  BlobCall, Manifest, manifest_of, answer_manifest, answer_status, do_release,
}
use ce_pin.Host.Gc.{advertise_each, readvertise, refresh_revoked}
use ce_pin.Host.Dispatch.{Gate, Call, Action, release_result}
use ce_pin.Host.Tasks.Cases.{dispatch-elim}
use ce_pin.Host.Tasks.{
  Task, arrived, authorized, asking_height, fetching, reading_audit, reading_status, finished,
  refreshing, readvertising, collecting, ended, System, Move, arrive, fire, turn, dispatch,
  await_object, resume, receive, play,
}
use ce_pin.Host.Tasks.Invariant.{check-state}
use ce_pin.Host.Tasks.Stored.{
  Writes, run_gc-Writes, settle-Writes, do_renew-Writes, do_release-Writes,
}

answer_manifest-directory :
    (hs : Hashing) (call : BlobCall) (req : AuditReq) (s : HostState) (m : Option Manifest)
    → (answer_manifest hs call req s m).1.directory ≡ s.directory
answer_manifest-directory hs call req s m =
    answer_manifest-elim (λ (p : AuditResp × HostState). p.1.directory ≡ s.directory) hs call req s
      m (λ reason. refl) (λ chunk. refl)

answer_status-directory :
    (call : BlobCall) (req : StatusReq) (s : HostState) (m : Option Manifest)
    → (answer_status call req s m).1.directory ≡ s.directory
answer_status-directory call req s none = refl
answer_status-directory call req s (some m) = refl

advertise_each-directory :
    (cids : List Text) (s : HostState) → (advertise_each cids s).directory ≡ s.directory
unfolding advertise_each
advertise_each-directory [] s = refl
advertise_each-directory (cid ∷ cids) s = advertise_each-directory cids _

readvertise-directory : (s : HostState) → (readvertise s).directory ≡ s.directory
unfolding readvertise
readvertise-directory s =
    advertise_each-directory (Map.keys s.held.entries) (advertise service_host s)

refresh_revoked-directory :
    (hs : Hashing) (pairs : Option (List (Text × ℕ))) (s : HostState)
    → (refresh_revoked hs pairs s).directory ≡ s.directory
unfolding refresh_revoked
refresh_revoked-directory hs none s = refl
refresh_revoked-directory hs (some pairs) s = refl

release_result-state : (r : Option ReleaseResp) (s : HostState) → (release_result (r, s)).1 ≡ s
release_result-state none s = refl
release_result-state (some r) s = refl

module _ (host : Host) (hs : Hashing) (gate : Gate) (json : RoundTrips host.json) where
  -- A turn that does not write.
  untouched : (s t : HostState) → t.directory ≡ s.directory → Writes host s t
  untouched s t e = inl (ap (Map.lookup host.held_file) e)

  dispatch-Writes :
      (call : Call) (action : Action) (from_hex : Text) (payload : Bytes) (s : HostState)
      → Writes host s (dispatch host gate call action from_hex payload s).1
  dispatch-Writes call action from_hex payload s =
      dispatch-elim host gate (λ (u : Task × HostState). Writes host s u.1) call action from_hex
        payload s (inl refl) (λ req is_offer good held. inl refl) (λ req is_offer good. inl refl)
        (λ req is_audit good held. inl refl) (λ req. inl refl) (λ req is_status good held. inl refl)
        (λ req. inl refl) (λ req is_renew good. do_renew-Writes host call.disk call.now req s json)
        (λ req is_release good.
          subst (Writes host s)
            (sym (
              release_result-state (do_release host call.disk req s).0
                (do_release host call.disk req s).1))
            (do_release-Writes host call.disk req s json))

  await_object-directory :
      (call : Call) (req : OfferReq) (publisher : Text) (a : Admission) (s : HostState)
      → (await_object call req publisher (a, s)).1.directory ≡ s.directory
  await_object-directory call req publisher (rejected r) s = refl
  await_object-directory call req publisher admitted s = refl

  resume-Writes : (t : Task) (s : HostState) → Writes host s (resume host hs gate t s).1
  unfolding resume receive ce_pin.Host.Offer.drop_expired
  resume-Writes (arrived r) s = elim (check-state host hs gate r.call r.from_hex _ _ _ s) [
    | inl same ↦ untouched s (receive host hs gate r s).1 (ap (λ (x : HostState). x.directory) same)
    | inr counted ↦
        untouched s (receive host hs gate r s).1 (ap (λ (x : HostState). x.directory) counted)
  ]
  resume-Writes (authorized call action from_hex payload) s =
      dispatch-Writes call action from_hex payload s
  resume-Writes (asking_height call req publisher) s =
      let (a, t) = admission_at host call.offer.height req s in
      untouched s (await_object call req publisher (a, t)).1
        (await_object-directory call req publisher a t)
  resume-Writes (fetching call req publisher already_held) s =
      settle-Writes host call.offer req publisher already_held s call.offer.fetched json
  resume-Writes (reading_audit call req) s =
      untouched s (answer_manifest hs call.blobs req s (manifest_of call.blobs req.cid)).1
        (answer_manifest-directory hs call.blobs req s (manifest_of call.blobs req.cid))
  resume-Writes (reading_status call req) s =
      untouched s (answer_status call.blobs req s (manifest_of call.blobs req.cid)).1
        (answer_status-directory call.blobs req s (manifest_of call.blobs req.cid))
  resume-Writes (finished reply) s = inl refl
  resume-Writes (refreshing pairs) s =
      untouched s (refresh_revoked hs pairs s) (refresh_revoked-directory hs pairs s)
  resume-Writes readvertising s = untouched s (readvertise s) (readvertise-directory s)
  resume-Writes (collecting height disk) s = run_gc-Writes host height disk s json
  resume-Writes ended s = inl refl

  pub play-Writes :
      (m : Move) (sys : System) → Writes host sys.shared (play host hs gate m sys).shared
  unfolding play
  play-Writes (arrive r) sys = inl refl
  play-Writes (fire tick) sys = inl refl
  play-Writes (turn i) sys = elim (Option-cases (get_elem? sys.tasks i)) [
    | inl out ↦ rw out (inl refl)
    | inr (t, there) ↦ rw there (resume-Writes t sys.shared)
  ]
