-- ===== src/Duckfs/Fs/Reserved.antt =====
-- The refs that the verbs of crates/duckfs/core/src/fs.rs keep: within the caps of the image's sections,
-- and with room in the image for the head, the window and the retention root that are still to come.
pub mod Maps
use ducktape_sdk.Prelude.{
  ℕ, ◌+◌, ◌*◌, ◌-◌, ◌^◌, ◌≤◌, ◌<◌, ◌≡◌, Option, none, some, List, [], ◌∷◌, ◌++◌, length,
  length-append, All, arith, All-append,
}
use ducktape_sdk.Bytes.Order.{bytes_order, pair_order}
use ducktape_sdk.BTree.{BTreeMap, IsAscending}
use ducktape_sdk.Parser.Ints.{IsArray}
use ducktape_sdk.Duckfs.Limits.{
  history_window, max_pins, max_staging_entries, max_watches, max_refs_image_bytes,
}
use ducktape_sdk.Duckfs.Objects.{ObjectId}
use ducktape_sdk.Duckfs.Objects.Snapshot.{IsOptId}
use ducktape_sdk.Duckfs.Refs.{
  PinEntry, Staged, Refs, Watch, encoded_refs_len, pin_entry_len, staged_entry_len, watch_entry_len,
  sum_by, id_len,
}
use ducktape_sdk.Duckfs.Refs.Sections.{IsPin, IsStaged}
use ducktape_sdk.Duckfs.Refs.Watches.{IsWatch}
use ducktape_sdk.Duckfs.Refs.Canonical.{IsRefs}
use ducktape_sdk.Duckfs.Fs.{absent_len, refs_commit_headroom, trim, push_window}

-- The image and what the ungated paths may still add to it.
abbrev pub reserved : ℕ → Refs → ℕ
reserved window_cap r = encoded_refs_len r + refs_commit_headroom r window_cap

pub record IsBounded (window_cap : ℕ) (r : Refs) : Type 0 where
  pub valid : IsRefs r
  pub room : reserved window_cap r ≤ max_refs_image_bytes

abbrev pub pins_len : BTreeMap (List ℕ) PinEntry → ℕ
pins_len = sum_by (λ e. pin_entry_len e.0 e.1.owner)

abbrev pub staging_len : BTreeMap ObjectId Staged → ℕ
staging_len = sum_by (λ e. staged_entry_len e.1.owner)

abbrev pub watches_len : BTreeMap Watch (Unit {0}) → ℕ
watches_len = sum_by (λ e. watch_entry_len e.0.0 e.0.1)

abbrev pub HasStaging : BTreeMap ObjectId Staged → Type 0
HasStaging m = IsAscending m × All IsStaged m × (length m ≤ max_staging_entries)

abbrev pub HasPins : BTreeMap (List ℕ) PinEntry → Type 0
HasPins m = IsAscending m × All IsPin m × (length m ≤ max_pins)

abbrev pub HasWatches : BTreeMap Watch (Unit {0}) → Type 0
HasWatches m = IsAscending m × All IsWatch m × (length m ≤ max_watches)

abbrev pub HasWindow : List ObjectId → Type 0
HasWindow w = All (IsArray 32) w × (length w ≤ history_window)

pub assemble :
    (r : Refs)
    → r.source_revision < 2 ^ 64
    → IsOptId r.head
    → HasWindow r.window
    → HasPins r.pins
    → HasStaging r.staging
    → HasWatches r.watches
    → IsOptId r.retention_root
    → IsRefs r
assemble r revision head (ids, in_window) (pa, pv, pn) (sa, sv, sn) (wa, wv, wn) retention =
    record {
      revision_fits = revision;
      head_id = head;
      window_ids = ids;
      window_cap = in_window;
      pins_ascend = pa;
      pins_valid = pv;
      pins_cap = pn;
      staging_ascends = sa;
      staging_valid = sv;
      staging_cap = sn;
      watches_ascend = wa;
      watches_valid = wv;
      watches_cap = wn;
      retention_id = retention;
    }

module _ {r : Refs} (h : IsRefs r) where
  pub window_of : HasWindow r.window
  window_of = (h.window_ids, h.window_cap)

  pub pins_of : HasPins r.pins
  pins_of = (h.pins_ascend, h.pins_valid, h.pins_cap)

  pub staging_of : HasStaging r.staging
  staging_of = (h.staging_ascends, h.staging_valid, h.staging_cap)

  pub watches_of : HasWatches r.watches
  watches_of = (h.watches_ascend, h.watches_valid, h.watches_cap)

module _ (cap k : ℕ) (r : Refs) (h : IsBounded cap r)
    (fits : reserved cap r + k ≤ max_refs_image_bytes) where
  pub staging-IsBounded :
      (m : BTreeMap ObjectId Staged)
      → HasStaging m
      → staging_len m ≤ staging_len r.staging + k
      → IsBounded cap (record r { staging = m })
  unfolding encoded_refs_len refs_commit_headroom
  staging-IsBounded m has le = record {
    valid =
        assemble (record r { staging = m }) h.valid.revision_fits h.valid.head_id
          (window_of h.valid) (pins_of h.valid) has (watches_of h.valid) h.valid.retention_id;
    room = omega (arith, fits, le);
  }

  pub pins-IsBounded :
      (m : BTreeMap (List ℕ) PinEntry)
      → HasPins m
      → pins_len m ≤ pins_len r.pins + k
      → IsBounded cap (record r { pins = m })
  unfolding encoded_refs_len refs_commit_headroom
  pins-IsBounded m has le = record {
    valid =
        assemble (record r { pins = m }) h.valid.revision_fits h.valid.head_id (window_of h.valid)
          has (staging_of h.valid) (watches_of h.valid) h.valid.retention_id;
    room = omega (arith, fits, le);
  }

  pub watches-IsBounded :
      (m : BTreeMap Watch (Unit {0}))
      → HasWatches m
      → watches_len m ≤ watches_len r.watches + k
      → IsBounded cap (record r { watches = m })
  unfolding encoded_refs_len refs_commit_headroom
  watches-IsBounded m has le = record {
    valid =
        assemble (record r { watches = m }) h.valid.revision_fits h.valid.head_id
          (window_of h.valid) (pins_of h.valid) (staging_of h.valid) has h.valid.retention_id;
    room = omega (arith, fits, le);
  }

length-trim :
    (cap : ℕ) (w : List ObjectId) → (length (trim cap w) ≤ cap) × (length (trim cap w) ≤ length w)
unfolding trim
length-trim cap [] = (omega arith, omega arith)
length-trim cap (id ∷ w) = let (p, q) = length-trim cap w in (ground arith, ground arith)

All-trim : (cap : ℕ) (P : ObjectId → Type 0) (w : List ObjectId) → All P w → All P (trim cap w)
unfolding trim
All-trim cap P [] h = tt
All-trim cap P (id ∷ w) (p, h) = ground (arith, All-trim cap P w h)

present-absent : (o : Option ObjectId) → id_len o + absent_len o ≡ 32
present-absent none = omega arith
present-absent (some id) = omega arith

module _ (cap : ℕ) (r : Refs) (h : IsBounded cap r) where
  pub retention-IsBounded :
      (root : Option ObjectId) → IsOptId root → IsBounded cap (record r { retention_root = root })
  unfolding encoded_refs_len refs_commit_headroom
  retention-IsBounded root ok_id = record {
    valid =
        assemble (record r { retention_root = root }) h.valid.revision_fits h.valid.head_id
          (window_of h.valid) (pins_of h.valid) (staging_of h.valid) (watches_of h.valid) ok_id;
    room = omega (arith, h.room, present-absent root, present-absent r.retention_root);
  }

  pub head-IsBounded :
      (head : Option ObjectId) → IsOptId head → IsBounded cap (record r { head = head })
  unfolding encoded_refs_len refs_commit_headroom
  head-IsBounded head ok_id = record {
    valid =
        assemble (record r { head = head }) h.valid.revision_fits ok_id (window_of h.valid)
          (pins_of h.valid) (staging_of h.valid) (watches_of h.valid) h.valid.retention_id;
    room = omega (arith, h.room, present-absent head, present-absent r.head);
  }

  pub window-IsBounded :
      (id : ObjectId)
      → cap ≤ history_window
      → IsArray 32 id
      → IsBounded cap (record r { window = push_window cap id r.window })
  unfolding encoded_refs_len refs_commit_headroom push_window
  window-IsBounded id small ok_id =
      let (in_cap, shorter) = length-trim cap (r.window ++ (id ∷ [])) in
      let len = length-append r.window (id ∷ []) in
      let ids =
        All-trim cap (IsArray 32) (r.window ++ (id ∷ []))
          (All-append (IsArray 32) r.window (id ∷ []) h.valid.window_ids (ok_id, tt)) in
      record {
        valid =
            assemble (record r { window = push_window cap id r.window }) h.valid.revision_fits
              h.valid.head_id (ids, omega (arith, in_cap, small)) (pins_of h.valid)
              (staging_of h.valid) (watches_of h.valid) h.valid.retention_id;
        room = omega (arith, h.room, in_cap, shorter, len);
      }

  pub revision-IsBounded : (n : ℕ) → n < 2 ^ 64 → IsBounded cap (record r { source_revision = n })
  unfolding encoded_refs_len refs_commit_headroom
  revision-IsBounded n fits = record {
    valid =
        assemble (record r { source_revision = n }) fits h.valid.head_id (window_of h.valid)
          (pins_of h.valid) (staging_of h.valid) (watches_of h.valid) h.valid.retention_id;
    room = h.room;
  }
