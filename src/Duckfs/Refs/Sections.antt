-- ===== src/Duckfs/Refs/Sections.antt =====
-- The pins and the staged chunks of the refs image: what a round reads of what was written.
use ducktape_sdk.Prelude.{ℕ, ◌^◌, ◌<◌, refl, ap₂, ◌∙◌, List, ◌++◌, append-nil}
use ducktape_sdk.Bytes.Order.{bytes_order}
use ducktape_sdk.BTree.{insert, last_not_below}
use ducktape_sdk.Parser.{View}
use ducktape_sdk.Parser.Reads.{Reads-pure, Reads-bind, Reads-last, Reads-guard}
use ducktape_sdk.Parser.Parses.{Parses-pure, Parses-bind, Parses-guard}
use ducktape_sdk.Parser.Ints.{IsArray}
use ducktape_sdk.Parser.Seq.{EntryReads, EntryParses}
use ducktape_sdk.Duckfs.Errors.{pins_not_ascending, staging_not_ascending}
use ducktape_sdk.Duckfs.Codec.{Reader, frame_view}
use ducktape_sdk.Duckfs.Codec.Rules.{IsText, u64_codes, bytes32_codes}
use ducktape_sdk.Duckfs.Codec.Fields.{string_codes}
use ducktape_sdk.Duckfs.Actor.RoundTrip.{IsActor, IsActor-codes}
use ducktape_sdk.Duckfs.Objects.{ObjectId}
use ducktape_sdk.Duckfs.Refs.{PinEntry, Staged, encode_pin, encode_staged, read_pin, read_staged}

abbrev v : View Reader
v = frame_view

abbrev pub IsPin : List ℕ × PinEntry → Type 0
IsPin (name, pin) = IsText name × IsArray 32 pin.snapshot × IsActor pin.owner

abbrev pub IsStaged : ObjectId × Staged → Type 0
IsStaged (digest, staged) =
    IsArray 32 digest × IsActor staged.owner × (staged.len < 2 ^ 64) × (staged.expires_at < 2 ^ 64)

pub reads-IsPin : EntryReads v encode_pin IsPin read_pin
unfolding read_pin
reads-IsPin m (name, pin) (asc, (t, id, a)) = Reads-bind v _ _ (string_codes.reads name t) (
    Reads-bind v _ _ (bytes32_codes.reads pin.snapshot id) (
      Reads-last v _ _ (IsActor-codes.reads pin.owner a) (
        Reads-guard v (last_not_below name m) pins_not_ascending asc
          (Reads-pure v (insert name pin m)))))

pub parses-IsPin : EntryParses v encode_pin IsPin read_pin
unfolding read_pin
parses-IsPin m = Parses-bind v _ _ string_codes.parses λ name xs (e, t).
    Parses-bind v _ _ bytes32_codes.parses λ snapshot ys (e1, id).
      Parses-bind v _ _ IsActor-codes.parses λ owner zs (e2, a).
        Parses-guard v (last_not_below name m) pins_not_ascending λ asc.
          let pin : PinEntry = record { snapshot = snapshot; owner = owner } in
          Parses-pure v _ {a = insert name pin m}
            ((name, pin), refl, (asc, (t, id, a)), ap₂ ◌++◌ e (ap₂ ◌++◌ e1 (append-nil zs ∙ e2)))

pub reads-IsStaged : EntryReads v encode_staged IsStaged read_staged
unfolding read_staged
reads-IsStaged m (digest, staged) (asc, (id, a, len, expires)) =
    Reads-bind v _ _ (bytes32_codes.reads digest id) (
      Reads-bind v _ _ (IsActor-codes.reads staged.owner a) (
        Reads-bind v _ _ (u64_codes.reads staged.len len) (
          Reads-last v _ _ (u64_codes.reads staged.expires_at expires) (
            Reads-guard v (last_not_below digest m) staging_not_ascending asc
              (Reads-pure v (insert digest staged m))))))

pub parses-IsStaged : EntryParses v encode_staged IsStaged read_staged
unfolding read_staged
parses-IsStaged m = Parses-bind v _ _ bytes32_codes.parses λ digest xs (e, id).
    Parses-bind v _ _ IsActor-codes.parses λ owner ys (e1, a).
      Parses-bind v _ _ u64_codes.parses λ len zs (e2, len_ok).
        Parses-bind v _ _ u64_codes.parses λ expires us (e3, expires_ok).
          Parses-guard v (last_not_below digest m) staging_not_ascending λ asc.
            let staged : Staged = record { owner = owner; len = len; expires_at = expires } in
            Parses-pure v _ {a = insert digest staged m} (
              (digest, staged),
              refl,
              (asc, (id, a, len_ok, expires_ok)),
              ap₂ ◌++◌ e (ap₂ ◌++◌ e1 (ap₂ ◌++◌ e2 (append-nil us ∙ e3))),
            )
