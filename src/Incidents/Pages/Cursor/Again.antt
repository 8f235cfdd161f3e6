-- ===== src/Incidents/Pages/Cursor/Again.antt =====
-- A page's cursor, sent back with the options of the next page.
use cairnops.Common.{
  ℕ, ◌≤◌, ◌≡◌, ◌≢◌, ◌↔◌, refl, sym, ◌∙◌, String, str_eq, eq_iff, Bool, true, false, ltb,
  if◌then◌else◌, Bool-cases, inl, inr, Option, some, arith,
}
use cairnops.Common.Result.{Result, ok, err, invalid_input}
use cairnops.Identity.Input.{byte_count}
use cairnops.Incidents.Pages.Cursor.{
  ResolvedPageOptions, Filters, ResolvedCursor, is_uuid, filters_of, valid_filters, valid_cursor,
  read_cursor, cursor_of, next_cursor,
}

module _ (fingerprint : Filters → String) (decode : String → Option ResolvedCursor) where
  -- What the cursor of accepted options holds.
  record IsCursor (o : ResolvedPageOptions) (c : ResolvedCursor) : Type 0 where
    first_version : c.version ≡ 1
    same_filter : c.filter ≡ fingerprint (filters_of o)
    taken : c.snapshot ≢ 0

  valid_cursor-IsCursor :
      (o : ResolvedPageOptions) (c : ResolvedCursor)
      → valid_cursor fingerprint decode (fingerprint (filters_of o)) c ≡ true
      → IsCursor o c
  unfolding valid_cursor
  valid_cursor-IsCursor o c h = record {
    first_version = ground arith;
    same_filter = (eq_iff c.filter (fingerprint (filters_of o))).0 (ground arith);
    taken = ground arith;
  }

  read_cursor-IsCursor :
      (o : ResolvedPageOptions) {c : ResolvedCursor}
      → read_cursor fingerprint decode (fingerprint (filters_of o)) o.cursor ≡ ok c
      → IsCursor o c
  unfolding read_cursor
  read_cursor-IsCursor o {c = c} h = ground (arith, valid_cursor-IsCursor o c)

  cursor_of-IsCursor :
      (o : ResolvedPageOptions) (now : ℕ) {c : ResolvedCursor}
      → now ≢ 0
      → cursor_of fingerprint decode o now ≡ ok c
      → IsCursor o c
  unfolding cursor_of
  cursor_of-IsCursor o now {c = c} n h = elim (Bool-cases (str_eq o.cursor "")) [
    | inl e ↦ ground (arith, e)
    | inr e ↦ read_cursor-IsCursor o (ground (arith, e))
  ]

  -- A cursor that goes on from one of the same fingerprint is valid.
  valid_next :
      (o p : ResolvedPageOptions) (resolved_at : ℕ) (id : String) (c : ResolvedCursor)
      → IsCursor o c
      → fingerprint (filters_of p) ≡ fingerprint (filters_of o)
      → resolved_at ≢ 0
      → resolved_at ≤ c.snapshot
      → is_uuid id ≡ true
      → valid_cursor fingerprint decode (fingerprint (filters_of p)) (next_cursor c resolved_at id)
        ≡ true
  unfolding valid_cursor next_cursor
  valid_next o p resolved_at id c k same r u i =
      let agrees = (eq_iff c.filter (fingerprint (filters_of p))).1 (k.same_filter ∙ sym same) in
      ground (arith, agrees, k.first_version, k.taken)

  if_ok :
      (b : Bool) (k : ResolvedCursor)
      → (let r : Result ResolvedCursor = if b then ok k else err invalid_input in r) ≡ ok k
      → b ≡ true
  if_ok true k h = refl
  if_ok false k h = cc

  -- The text of a cursor, as the decoding reads it back and as long as it may be.
  pub record IsText (k : ResolvedCursor) (text : String) : Type 0 where
    pub decodes : decode text ≡ some k
    pub not_empty : str_eq text "" ≡ false
    pub short : ltb 2048 (byte_count text) ≡ false

  cursor_of-encode :
      (p : ResolvedPageOptions) (later : ℕ) (k : ResolvedCursor)
      → valid_filters p ≡ true
      → IsText k p.cursor
      → cursor_of fingerprint decode p later ≡ (
          if valid_cursor fingerprint decode (fingerprint (filters_of p)) k
          then ok k
          else err invalid_input)
  unfolding cursor_of read_cursor
  cursor_of-encode p later k v e =
      rw (v, e.not_empty, cursor_of) (rw (e.short, e.decodes, read_cursor) refl)

  -- The cursor behind a row of a page (resolved at a time up to the snapshot, with a uuid), whose text
  -- decodes to it and is at most 2048 bytes long, sent back with options that are valid themselves,
  -- reads as it was written exactly where the filters have the fingerprint of those of the page; the
  -- page size and the time of the request are free.
  pub cursor_of-next_cursor :
      (o p : ResolvedPageOptions) (now later resolved_at : ℕ) (id : String) (c : ResolvedCursor)
      → now ≢ 0
      → cursor_of fingerprint decode o now ≡ ok c
      → resolved_at ≢ 0
      → resolved_at ≤ c.snapshot
      → is_uuid id ≡ true
      → valid_filters p ≡ true
      → IsText (next_cursor c resolved_at id) p.cursor
      → (cursor_of fingerprint decode p later ≡ ok (next_cursor c resolved_at id))
        ↔ (fingerprint (filters_of p) ≡ fingerprint (filters_of o))
  unfolding next_cursor
  cursor_of-next_cursor o p now later resolved_at id c n h r u i v e =
      let known = cursor_of-IsCursor o now n h in
      let read = cursor_of-encode p later (next_cursor c resolved_at id) v e in
      (
        λ accepted.
            sym
              (valid_cursor-IsCursor p (next_cursor c resolved_at id)
                (if_ok _ (next_cursor c resolved_at id) (sym read ∙ accepted))).same_filter
            ∙ known.same_filter,
        λ same. read ∙ rw (valid_next o p resolved_at id c known same r u i) refl,
      )
