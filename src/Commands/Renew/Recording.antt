-- ===== src/Commands/Renew/Recording.antt =====
-- `cmd_renew` of src/main.rs: what it records of a renewed pin, and what it asks of the holders.
use ce_pin.Prelude.{ℕ, ◌≡◌, ◌⊎◌, true, false, Option, some, ◌++◌, map}
use ce_pin.Prelude.Text.{Text, text_eq}
use ce_pin.Prelude.Map
use ce_pin.PinSet.{PinSet, Entry, loaded, get, load}
use ce_pin.Commands.{World, Session, renew_sent, Outcome, done, error, save_error, caps_hex}

-- The holders are asked in their order, whatever comes of the save; if that succeeds the file is
-- loaded with the new terms for the pin and as it was for every other, and if it fails the file is
-- what the other processes left.
pub record Renewed (w : World) (file cid : Text) (expiry : ℕ) (rent : Text) (caps_arg : Option Text)
    (set : PinSet) (entry : Entry) (outcome : Outcome) (s s' : Session) : Type 0 where
  pub asked :
      s'.sent
      ≡ s.sent
        ++ map
            (λ r. renew_sent r.holder (record {
              caps = caps_hex w caps_arg;
              cid = cid;
              expiry_height = expiry;
              rent_per_gb_hour = rent;
            }))
            entry.replicas
  pub recorded :
      ((outcome ≡ done)
        × (after : PinSet) × (load w.json true file s'.directory ≡ loaded after)
        × (get after cid
            ≡ some (record entry {
              job = record (entry.job) { expiry_height = expiry; rent_per_gb_hour = rent };
            }))
        × ((other : Text) → text_eq other cid ≡ false → get after other ≡ get set other))
      ⊎ ((outcome ≡ error save_error)
          × (Map.lookup file s'.directory ≡ Map.lookup file (w.meanwhile s.directory)))
