-- ===== src/Ssh2/Copy.antt =====
-- `copy_with_progress`: a reader is copied into a writer, and the progress is reported at the start,
-- at the end, and where a quarter of a second has passed since the last time.
use cross_scp.Base.{
  ℕ, zero, suc, ◌+◌, ◌-◌, ◌*◌, ◌%◌, ◌^◌, List, [], ◌∷◌, Option, leb, ◌==◌, not, if◌then◌else◌,
  length,
}
use cross_scp.Machine.{IoError, Machine}
use cross_scp.Machine.Call.{Call, ◌>>=◌, ◌>>◌, return, exhausted, calling, reading, change, when}
use cross_scp.Sftp.Errors.{SftpError, io}

abbrev pub sftp_transfer_buffer_size : ℕ
sftp_transfer_buffer_size = 8 * 1024 * 1024

abbrev pub sftp_progress_interval_ms : ℕ
sftp_progress_interval_ms = 250

-- `impl From<std::io::Error> for SftpError`
abbrev pub from_io : IoError → SftpError
from_io error = io error.message

-- What the loop keeps: the bytes that were written, those that were reported last, and when.
pub record Copied : Type 0 where
  pub bytes_done : ℕ
  pub last_reported_bytes : ℕ
  pub last_reported_at : ℕ

module _ {W H : Type 0} (machine : Machine W H) (reader writer : H) where
  -- `report_progress` is the closure of the caller behind that of the function that calls, `shown`.
  module _ (shown : ℕ → ℕ × Option ℕ) where
    abbrev pub report_progress : ℕ → Call W SftpError (Unit {0})
    report_progress bytes_done =
        let (done, total) = shown bytes_done in change (machine.report done total)

    -- A chunk is written and counted, and reported if it is time.
    unfoldable pub copy_chunk : List ℕ → Copied → Call W SftpError Copied
    copy_chunk chunk copied = do
      calling from_io (machine.write_all writer chunk)
      let bytes_done = (copied.bytes_done + length chunk) % 2 ^ 64
      reading machine.now (λ now.
          if leb sftp_progress_interval_ms (now - copied.last_reported_at)
          then report_progress bytes_done
            >> reading machine.now (λ reported_at. return (record {
              bytes_done = bytes_done;
              last_reported_bytes = bytes_done;
              last_reported_at = reported_at;
            }))
          else return (record copied { bytes_done = bytes_done }))

    -- What follows a read: the loop ends where nothing was read, and is `again` otherwise.
    unfoldable pub copy_next :
        (Copied → Call W SftpError Copied) → Copied → List ℕ → Call W SftpError Copied
    unfolding copy_chunk
    copy_next again copied [] = return copied
    copy_next again copied (b ∷ chunk) = copy_chunk (b ∷ chunk) copied >>= again

    unfoldable pub copy_chunks : ℕ → Copied → Call W SftpError Copied
    unfolding copy_next
    copy_chunks zero copied = exhausted
    copy_chunks (suc fuel) copied =
        calling from_io (machine.read reader sftp_transfer_buffer_size)
        >>= copy_next (λ next. copy_chunks fuel next) copied

    unfoldable pub copy_with_progress : ℕ → Call W SftpError ℕ
    unfolding copy_chunks
    copy_with_progress fuel = do
      started ← reading machine.now return
      report_progress 0
      copied ←
          copy_chunks fuel
            (record { bytes_done = 0; last_reported_bytes = 0; last_reported_at = started })
      calling from_io (machine.flush writer)
      when (not (copied.last_reported_bytes == copied.bytes_done))
          (report_progress copied.bytes_done)
      return copied.bytes_done
