-- ===== src/Gateway/Writer.antt =====
-- internal/gateway/response_writer.go. The writer below is what it was called with.
use mathlib.Core.List.{append_assoc, append-nil}
use dev_gate.Common.{
  ℕ, ◌+◌, ◌≡◌, refl, ◌∙◌, Bool, true, false, List, [], ◌∷◌, ◌++◌, arith, if◌then◌else◌,
}

-- A call of the writer below: WriteHeader, or a Write of which so many bytes were taken.
pub data Call : Type 0 where
  header : (status : ℕ) → Call
  body : (taken : ℕ) → Call

pub record ResponseWriter : Type 0 where
  pub below : List Call
  pub status_code : ℕ
  pub bytes_written : ℕ
  pub wrote_header : Bool

abbrev pub new_response_writer : ResponseWriter
new_response_writer = record {
  below = [];
  status_code = 200;
  bytes_written = 0;
  wrote_header = false;
}

unfoldable pub write_header : ResponseWriter → ℕ → ResponseWriter
write_header rw_ status = if rw_.wrote_header then rw_ else record rw_ {
  below = rw_.below ++ header status ∷ [];
  status_code = status;
  wrote_header = true;
}

unfoldable pub write : ResponseWriter → ℕ → ResponseWriter
unfolding write_header
write rw_ taken =
    let w = if rw_.wrote_header then rw_ else write_header rw_ 200 in
    record w { below = w.below ++ body taken ∷ []; bytes_written = w.bytes_written + taken }

-- The calls that a handler makes of the recording writer.
unfoldable pub handle : ResponseWriter → List Call → ResponseWriter
unfolding write_header write
handle w [] = w
handle w (header status ∷ cs) = handle (write_header w status) cs
handle w (body taken ∷ cs) = handle (write w taken) cs

-- The status of a response, by the first call.
abbrev pub status_of : List Call → ℕ
status_of (header status ∷ cs) = status
status_of _ = 200

abbrev pub bodies : List Call → List Call
bodies [] = []
bodies (header status ∷ cs) = bodies cs
bodies (body taken ∷ cs) = body taken ∷ bodies cs

abbrev pub total : List Call → ℕ
total [] = 0
total (header status ∷ cs) = total cs
total (body taken ∷ cs) = taken + total cs

-- One header, and then the bodies.
abbrev pub sent : List Call → List Call
sent [] = []
sent (c ∷ cs) = header (status_of (c ∷ cs)) ∷ bodies (c ∷ cs)

abbrev pub any_call : List Call → Bool
any_call [] = false
any_call (c ∷ cs) = true

-- A writer whose header is written passes on the bodies alone.
handle_written :
    (w : ResponseWriter) (cs : List Call)
    → w.wrote_header ≡ true
    → handle w cs
      ≡ record w { below = w.below ++ bodies cs; bytes_written = w.bytes_written + total cs }
unfolding handle write_header write
handle_written w [] e = ground (arith, append-nil w.below)
handle_written w (header status ∷ cs) e = ground (arith, handle_written w cs e)
handle_written w (body taken ∷ cs) e =
    let w' = record w {
      below = w.below ++ body taken ∷ [];
      bytes_written = w.bytes_written + taken;
    } in
    ground (arith, handle_written w' cs e, append_assoc w.below (body taken ∷ []) (bodies cs))

-- The writer below gets the header of the first call only, with 200 for a body without one, before
-- the bodies in order; the status and the bytes that are recorded are those.
pub handle_lem :
    (cs : List Call)
    → handle new_response_writer cs ≡ record {
      below = sent cs;
      status_code = status_of cs;
      bytes_written = total cs;
      wrote_header = any_call cs;
    }
unfolding handle write
handle_lem [] = refl
handle_lem (header status ∷ cs) =
    handle_written
      (record {
        below = header status ∷ [];
        status_code = status;
        bytes_written = 0;
        wrote_header = true;
      })
      cs refl
    ∙ ground arith
handle_lem (body taken ∷ cs) =
    handle_written
      (record {
        below = header 200 ∷ body taken ∷ [];
        status_code = 200;
        bytes_written = 0 + taken;
        wrote_header = true;
      })
      cs refl
    ∙ ground arith
