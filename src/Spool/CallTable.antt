-- ===== src/Spool/CallTable.antt =====
-- The table `calls`: client/sentinel-core/src/spool.rs.
use magick_sentinel.Prelude.{
  ℕ, Bool, false, not, Option, none, some, List, [], ◌∷◌, keep, any, if◌then◌else◌, Text, text_eq,
}
use magick_sentinel.Spool.Schema.{SegmentRow, CallRow, Spool}

unfoldable pub find_call : Text → List CallRow → Option CallRow
find_call id [] = none
find_call id (c ∷ cs) = if text_eq c.call_id id then some c else find_call id cs

unfoldable pub begin_call : Spool → Text → Text → ℕ → Spool
unfolding find_call
begin_call s call_id start_json now_ms = elim (find_call call_id s.calls) [
  | some c ↦ s
  | none ↦ record s {
    calls =
        record {
          call_id = call_id;
          start_json = start_json;
          end_json = none;
          is_sealed = false;
          created_ms = now_ms;
        }
        ∷ s.calls;
  }
]

-- UPDATE calls SET ... WHERE call_id = id.
unfoldable pub update_call : Text → (CallRow → CallRow) → List CallRow → List CallRow
update_call id f [] = []
update_call id f (c ∷ cs) = (if text_eq c.call_id id then f c else c) ∷ update_call id f cs

unfoldable pub end_call : Spool → Text → Text → Spool
unfolding update_call
end_call s call_id end_json = record s {
  calls = update_call call_id (λ c. record c { end_json = some end_json }) s.calls;
}

unfoldable pub call_start_json : Spool → Text → Option Text
unfolding find_call
call_start_json s call_id = elim (find_call call_id s.calls) [
  | none ↦ none
  | some c ↦ some c.start_json
]

unfoldable pub call_end_json : Spool → Text → Option Text
unfolding find_call
call_end_json s call_id = elim (find_call call_id s.calls) [ none ↦ none | some c ↦ c.end_json ]

unfoldable pub is_sealed : Spool → Text → Bool
unfolding find_call
is_sealed s call_id = elim (find_call call_id s.calls) [ none ↦ false | some c ↦ c.is_sealed ]

-- The rows of the calls with segments, each once, in the order of their oldest segment: the
-- rows of `segments` are ordered by created_ms first.
unfoldable pub distinct : List Text → List SegmentRow → List Text
distinct seen [] = []
distinct seen (r ∷ rs) =
    let new_one = r.call_id ∷ distinct (r.call_id ∷ seen) rs in
    let old_one = distinct seen rs in if any (text_eq r.call_id) seen then old_one else new_one

unfoldable pub pending_calls : Spool → List Text
unfolding distinct find_call
pending_calls s =
    keep (λ id. elim (find_call id s.calls) [ none ↦ false | some c ↦ not c.is_sealed ])
      (distinct [] s.segments)
