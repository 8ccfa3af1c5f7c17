-- ===== src/Ipc/Stream.antt =====
-- The system calls `read` and `write` on a connected stream, which the repository does not contain: what
-- a call can return, and what the code relies on, as interfaces.
use nomos_rt.Common.{ℕ, ◌≤◌, ◌<◌, ◌≡◌, ◌≢◌, ◌⊎◌, List, [], ◌++◌, length, take}

-- What a call of `read` returns: some bytes, -1 with `EINTR`, 0 at the end of the stream, or -1 with
-- another `errno`.
pub data ReadResult : Type 0 where
  got : List ℕ → ReadResult
  interrupted : ReadResult
  closed : ReadResult
  failed : ℕ → ReadResult

-- A stream to read from. `remaining` are the bytes that the peer has sent and nobody has read, and
-- `signals` bounds the interruptions to come.
pub record Source : Type 1 where
  pub S : Type 0
  pub read : ℕ → S → ReadResult × S
  pub remaining : S → List ℕ
  pub signals : S → ℕ

-- `read` returns the next bytes of the stream, at least one and at most as many as asked for; an
-- interruption leaves the stream as it is.
abbrev pub ReadStep : (src : Source) → ℕ → src.S → ReadResult × src.S → Type 0
ReadStep src n s (got bs, t) =
    (0 < length bs)
    × (length bs ≤ n)
    × (src.remaining s ≡ bs ++ src.remaining t)
    × (src.signals t ≤ src.signals s)
ReadStep src n s (interrupted, t) =
    (src.remaining t ≡ src.remaining s) × (src.signals t < src.signals s)
ReadStep src n s (closed, t) = (src.remaining s ≡ []) × (src.remaining t ≡ [])
ReadStep src n s (failed e, t) = e ≢ 0

abbrev pub ReadLaw : Source → Type 0
ReadLaw src = (n : ℕ) (s : src.S) → 0 < n → ReadStep src n s (src.read n s)

-- A stream on which no call fails.
abbrev pub NeverFails : Source → Type 0
NeverFails src = (n : ℕ) (s : src.S) (e : ℕ) → (src.read n s).0 ≢ failed e

-- What a call of `write` returns: a count, -1 with `EINTR`, or -1 with another `errno`.
pub data WriteResult : Type 0 where
  took : ℕ → WriteResult
  write_interrupted : WriteResult
  write_failed : ℕ → WriteResult

-- A stream to write to; `written` are the bytes that it has taken.
pub record Sink : Type 1 where
  pub S : Type 0
  pub write : List ℕ → S → WriteResult × S
  pub written : S → List ℕ
  pub signals : S → ℕ

-- `write` takes a number of the bytes from the front.
abbrev pub WriteStep : (snk : Sink) → List ℕ → snk.S → WriteResult × snk.S → Type 0
WriteStep snk bs s (took k, t) =
    (k ≤ length bs) × (snk.written t ≡ snk.written s ++ take k bs) × (snk.signals t ≤ snk.signals s)
WriteStep snk bs s (write_interrupted, t) =
    (snk.written t ≡ snk.written s) × (snk.signals t < snk.signals s)
WriteStep snk bs s (write_failed e, t) = snk.written t ≡ snk.written s

abbrev pub WriteLaw : Sink → Type 0
WriteLaw snk = (bs : List ℕ) (s : snk.S) → 0 < length bs → WriteStep snk bs s (snk.write bs s)

-- A stream that takes a byte or is interrupted at each call.
abbrev pub AlwaysTakes : Sink → Type 0
AlwaysTakes snk =
    (bs : List ℕ) (s : snk.S)
    → ((snk.write bs s).0 ≡ write_interrupted) ⊎ ((k : ℕ) × ((snk.write bs s).0 ≡ took k) × (0 < k))
