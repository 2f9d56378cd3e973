-- ===== src/Duckfs/Objects/Snapshot.antt =====
-- `SnapshotObj`: what `decode` reads of what `encode` wrote.
use ducktape_sdk.Prelude.{
  ℕ, ◌^◌, ◌≤◌, ◌<◌, ◌≡◌, refl, ap₂, ◌∙◌, Bool, true, false, Option, none, some, List, ◌++◌, length,
  ltb, le→ltb_false, ltb_false→le, append-nil,
}
use ducktape_sdk.Parser.{View}
use ducktape_sdk.Parser.Reads.{Reads, Reads-pure, Reads-bind, Reads-map, Reads-checked}
use ducktape_sdk.Parser.Parses.{Codes, Parses, Parses-pure, Parses-bind, Parses-map, Parses-checked}
use ducktape_sdk.Parser.Ints.{IsArray}
use ducktape_sdk.Duckfs.Limits.{max_message_bytes}
use ducktape_sdk.Duckfs.Errors.{message_over_cap}
use ducktape_sdk.Duckfs.Codec.{Reader, string, frame_view, bytes32}
use ducktape_sdk.Duckfs.Codec.Rules.{IsText, u64_codes, bytes32_codes}
use ducktape_sdk.Duckfs.Codec.Fields.{string_codes, boolean_codes, bool_byte}
use ducktape_sdk.Duckfs.Actor.RoundTrip.{IsActor, IsActor-codes}
use ducktape_sdk.Duckfs.Objects.{
  ObjectId, SnapshotObj, some_id, encode_opt_id, read_opt_id, encode_snapshot, read_snapshot,
}

abbrev v : View Reader
v = frame_view

abbrev pub IsOptId : Option ObjectId → Type 0
IsOptId none = Unit
IsOptId (some id) = IsArray 32 id

-- What the decoder admits.
pub record IsSnapshot (s : SnapshotObj) : Type 0 where
  pub root_id : IsArray 32 s.root
  pub parent_id : IsOptId s.parent
  pub author_valid : IsActor s.author
  pub time_fits : s.consensus_time < 2 ^ 64
  pub height_fits : s.height < 2 ^ 64
  pub message_text : IsText s.message
  pub message_cap : length s.message ≤ max_message_bytes

pub IsOptId-codes : Codes v read_opt_id encode_opt_id IsOptId
unfolding read_opt_id encode_opt_id
IsOptId-codes = record {
  reads = read;
  parses = Parses-bind v _ _ boolean_codes.parses λ b xs (e, _). parse b xs e;
}
  where
    read : (o : Option ObjectId) → IsOptId o → Reads v read_opt_id (encode_opt_id o) o
    read none h = Reads-bind v _ _ (boolean_codes.reads false tt) (Reads-pure v none)
    read (some id) h =
        Reads-bind v _ _ (boolean_codes.reads true tt)
          (Reads-map v bytes32 some (bytes32_codes.reads id h) refl)

    parse :
        (b : Bool) (xs : List ℕ)
        → xs ≡ bool_byte b
        → Parses v (some_id b) (λ ys o. (xs ++ ys ≡ encode_opt_id o) × IsOptId o)
    parse true xs e =
        Parses-map v bytes32 some _ bytes32_codes.parses λ id ys (e1, h). (ap₂ ◌++◌ e e1, h)
    parse false xs e = Parses-pure v _ {a = none} (append-nil xs ∙ e, tt)

pub IsSnapshot-codes : Codes v read_snapshot encode_snapshot IsSnapshot
unfolding read_snapshot encode_snapshot
IsSnapshot-codes = record {
  reads = λ s h. Reads-bind v _ _ (bytes32_codes.reads s.root h.root_id) (
      Reads-bind v _ _ (IsOptId-codes.reads s.parent h.parent_id) (
        Reads-bind v _ _ (IsActor-codes.reads s.author h.author_valid) (
          Reads-bind v _ _ (u64_codes.reads s.consensus_time h.time_fits) (
            Reads-bind v _ _ (u64_codes.reads s.height h.height_fits) (
              Reads-checked v string (λ m. ltb max_message_bytes (length m)) message_over_cap _
                (string_codes.reads s.message h.message_text) (le→ltb_false _ _ h.message_cap))))));
  parses = Parses-bind v _ _ bytes32_codes.parses λ root xs (e, root_ok).
      Parses-bind v _ _ IsOptId-codes.parses λ parent ys (e1, parent_ok).
        Parses-bind v _ _ IsActor-codes.parses λ author zs (e2, author_ok).
          Parses-bind v _ _ u64_codes.parses λ time us (e3, time_ok).
            Parses-bind v _ _ u64_codes.parses λ height ws (e4, height_ok).
              Parses-checked v string (λ m. ltb max_message_bytes (length m)) message_over_cap _ _
                string_codes.parses
                λ message ms (e5, text) cap. (
                  ap₂ ◌++◌ e (ap₂ ◌++◌ e1 (ap₂ ◌++◌ e2 (ap₂ ◌++◌ e3 (ap₂ ◌++◌ e4 e5)))),
                  record {
                    root_id = root_ok;
                    parent_id = parent_ok;
                    author_valid = author_ok;
                    time_fits = time_ok;
                    height_fits = height_ok;
                    message_text = text;
                    message_cap = ltb_false→le _ _ cap;
                  },
                );
}
