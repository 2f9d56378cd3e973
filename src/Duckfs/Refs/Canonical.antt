-- ===== src/Duckfs/Refs/Canonical.antt =====
-- The decoder of the refs image against its encoder.
use ducktape_sdk.Prelude.{
  ℕ, ◌^◌, ◌≤◌, ◌<◌, ◌≡◌, ◌↔◌, refl, sym, ap, ap₂, subst, ◌∙◌, List, ◌++◌, length, ltb, All,
  le→ltb_false, ltb_false→le, arith,
}
use ducktape_sdk.Bytes.Order.{bytes_order, pair_order}
use ducktape_sdk.BTree.{IsAscending}
use ducktape_sdk.Parser.{ok, View, if_err_eq_ok}
use ducktape_sdk.Parser.Reads.{Reads, Reads-bind, Reads-map, Reads-guard}
use ducktape_sdk.Parser.Parses.{Codes, Parses, Parses-bind, Parses-map, Parses-guard}
use ducktape_sdk.Parser.Ints.{IsArray}
use ducktape_sdk.Parser.Seq.{vec-Reads, vec_parses, map-Reads, map_parses}
use ducktape_sdk.Duckfs.Limits.{
  history_window, max_pins, max_staging_entries, max_watches, max_refs_image_bytes,
}
use ducktape_sdk.Duckfs.Errors.{
  refs_image, window_over_cap, pins_over_cap, staging_over_cap, watches_over_cap,
}
use ducktape_sdk.Duckfs.Codec.{Reader, push_u32, bytes32, frame_view}
use ducktape_sdk.Duckfs.Codec.Rules.{u32_codes, u64_codes, bytes32_codes}
use ducktape_sdk.Duckfs.Codec.Complete.{IsSlice, complete_iff}
use ducktape_sdk.Duckfs.Objects.Snapshot.{IsOptId, IsOptId-codes}
use ducktape_sdk.Duckfs.Refs.{
  Refs, encode_pin, encode_staged, encode_refs, read_pin, read_staged, read_refs, decode_refs,
}
use ducktape_sdk.Duckfs.Refs.Sections.{
  IsPin, IsStaged, reads-IsPin, parses-IsPin, reads-IsStaged, parses-IsStaged,
}
use ducktape_sdk.Duckfs.Refs.Watches.{IsWatch, watches-Reads, watches_parses}

-- What the decoder admits.
pub record IsRefs (r : Refs) : Type 0 where
  pub revision_fits : r.source_revision < 2 ^ 64
  pub head_id : IsOptId r.head
  pub window_ids : All (IsArray 32) r.window
  pub window_cap : length r.window ≤ history_window
  pub pins_ascend : IsAscending r.pins
  pub pins_valid : All IsPin r.pins
  pub pins_cap : length r.pins ≤ max_pins
  pub staging_ascends : IsAscending r.staging
  pub staging_valid : All IsStaged r.staging
  pub staging_cap : length r.staging ≤ max_staging_entries
  pub watches_ascend : IsAscending r.watches
  pub watches_valid : All IsWatch r.watches
  pub watches_cap : length r.watches ≤ max_watches
  pub retention_id : IsOptId r.retention_root

abbrev v : View Reader
v = frame_view

Reads-refs : (r : Refs) → IsRefs r → Reads v read_refs (encode_refs r) r
unfolding read_refs encode_refs
Reads-refs r h =
    let (last, watches) = watches-Reads r.watches h.watches_ascend h.watches_valid in
    Reads-bind v _ _ (IsOptId-codes.reads r.head h.head_id) (
      Reads-bind v _ _ (u32_codes.reads (length r.window) (omega (arith, h.window_cap))) (
        Reads-guard v (ltb history_window (length r.window)) window_over_cap
          (le→ltb_false _ _ h.window_cap)
          (Reads-bind v _ _
            (vec-Reads v bytes32 (λ id. id) (IsArray 32) bytes32_codes r.window h.window_ids)
            (Reads-bind v _ _ (u32_codes.reads (length r.pins) (omega (arith, h.pins_cap))) (
              Reads-guard v (ltb max_pins (length r.pins)) pins_over_cap
                (le→ltb_false _ _ h.pins_cap)
                (Reads-bind v _ _
                  (map-Reads v encode_pin IsPin read_pin reads-IsPin r.pins h.pins_ascend
                    h.pins_valid)
                  (Reads-bind v _ _
                    (u32_codes.reads (length r.staging) (omega (arith, h.staging_cap)))
                    (Reads-guard v (ltb max_staging_entries (length r.staging)) staging_over_cap
                      (le→ltb_false _ _ h.staging_cap)
                      (Reads-bind v _ _
                        (map-Reads v encode_staged IsStaged read_staged reads-IsStaged r.staging
                          h.staging_ascends h.staging_valid)
                        (Reads-bind v _ _
                          (u32_codes.reads (length r.watches) (omega (arith, h.watches_cap)))
                          (Reads-guard v (ltb max_watches (length r.watches)) watches_over_cap
                            (le→ltb_false _ _ h.watches_cap)
                            (Reads-bind v _ _ watches (
                              Reads-bind v _ _ (u64_codes.reads r.source_revision h.revision_fits) (
                                Reads-map v _ _
                                  (IsOptId-codes.reads r.retention_root h.retention_id)
                                  refl))))))))))))))

parses-IsRefs : Parses v read_refs (λ xs r. (xs ≡ encode_refs r) × IsRefs r)
unfolding read_refs encode_refs
parses-IsRefs = Parses-bind v _ _ IsOptId-codes.parses λ head xs (e, head_ok).
    Parses-bind v _ _ u32_codes.parses λ wn ws (we, _).
      Parses-guard v (ltb history_window wn) window_over_cap λ wcap.
        Parses-bind v _ _ (vec_parses v bytes32 (λ id. id) (IsArray 32) bytes32_codes wn)
          λ window wys (we1, wlen, ids). Parses-bind v _ _ u32_codes.parses λ pn ps (pe, _).
            Parses-guard v (ltb max_pins pn) pins_over_cap λ pcap.
              Parses-bind v _ _ (map_parses v encode_pin IsPin read_pin parses-IsPin pn)
                λ pins pys (pe1, plen, pasc, pvalid).
                  Parses-bind v _ _ u32_codes.parses λ sn ss (se, _).
                    Parses-guard v (ltb max_staging_entries sn) staging_over_cap λ scap.
                      Parses-bind v _ _
                        (map_parses v encode_staged IsStaged read_staged parses-IsStaged sn)
                        λ staging sys (se1, slen, sasc, svalid).
                          Parses-bind v _ _ u32_codes.parses λ tn ts (te, _).
                            Parses-guard v (ltb max_watches tn) watches_over_cap λ tcap.
                              Parses-bind v _ _ (watches_parses tn)
                                λ c tys (te1, tlen, tasc, tvalid).
                                  Parses-bind v _ _ u64_codes.parses λ rev rs (re, rev_ok).
                                    Parses-map v _
                                      (λ retention_root. record {
                                        source_revision = rev;
                                        head = head;
                                        window = window;
                                        pins = pins;
                                        staging = staging;
                                        watches = c.1;
                                        retention_root = retention_root;
                                      })
                                      _ IsOptId-codes.parses
                                      λ retention qs (qe, retention_ok). (
                                        ap₂ ◌++◌ e (
                                            ap₂ ◌++◌ (we ∙ ap push_u32 (sym wlen)) (
                                              ap₂ ◌++◌ we1 (
                                                ap₂ ◌++◌ (pe ∙ ap push_u32 (sym plen)) (
                                                  ap₂ ◌++◌ pe1 (
                                                    ap₂ ◌++◌ (se ∙ ap push_u32 (sym slen)) (
                                                      ap₂ ◌++◌ se1 (
                                                        ap₂ ◌++◌ (te ∙ ap push_u32 (sym tlen))
                                                          (ap₂ ◌++◌ te1 (ap₂ ◌++◌ re qe))))))))),
                                        record {
                                          revision_fits = rev_ok;
                                          head_id = head_ok;
                                          window_ids = ids;
                                          window_cap =
                                              subst (λ n. n ≤ history_window) (sym wlen)
                                                (ltb_false→le _ _ wcap);
                                          pins_ascend = pasc;
                                          pins_valid = pvalid;
                                          pins_cap =
                                              subst (λ n. n ≤ max_pins) (sym plen)
                                                (ltb_false→le _ _ pcap);
                                          staging_ascends = sasc;
                                          staging_valid = svalid;
                                          staging_cap =
                                              subst (λ n. n ≤ max_staging_entries) (sym slen)
                                                (ltb_false→le _ _ scap);
                                          watches_ascend = tasc;
                                          watches_valid = tvalid;
                                          watches_cap =
                                              subst (λ n. n ≤ max_watches) (sym tlen)
                                                (ltb_false→le _ _ tcap);
                                          retention_id = retention_ok;
                                        },
                                      )

IsRefs-codes : Codes v read_refs encode_refs IsRefs
IsRefs-codes = record { reads = Reads-refs; parses = parses-IsRefs }

-- A slice of bytes decodes to a refs value exactly when it is that value's image, the image is
-- within the byte cap, and the value meets the caps of its sections, whose keys strictly ascend.
pub decode_refs_iff :
    (bs : List ℕ) (r : Refs)
    → IsSlice bs
    → (decode_refs bs ≡ ok r)
      ↔ ((length bs ≤ max_refs_image_bytes) × IsRefs r × (encode_refs r ≡ bs))
unfolding decode_refs
decode_refs_iff bs r s =
    let whole = complete_iff IsRefs-codes refs_image bs r s in
    (
      λ h.
          let (under, e) = if_err_eq_ok _ _ _ _ h in
          let (valid, image) = whole.0 e in (ltb_false→le _ _ under, valid, image),
      λ (cap, valid, image). rw (le→ltb_false _ _ cap) (whole.1 (valid, image)),
    )
