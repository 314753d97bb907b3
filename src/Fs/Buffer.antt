-- ===== src/Fs/Buffer.antt =====
-- `BufWriter<File>` of the standard library. A dropped writer's last attempt to flush is left out: it
-- can only follow a failure, and touches no file but its own.
use via_tabula.Base.{ℕ, ◌-◌, [], ◌++◌, if◌then◌else◌, ltb, leb, length}
use via_tabula.Base.Bytes.{Bytes}
use via_tabula.Fs.Path.{FilePath}
use via_tabula.Fs.Calls.{Io, IoError, pure, ◌>>=◌, ◌>>◌, write_all}

pub record BufWriter : Type 0 where
  pub file : FilePath
  pub buffer : Bytes
  pub capacity : ℕ

unfoldable pub flush_buffer : BufWriter → Io IoError BufWriter
flush_buffer bw = do write_all bw.file bw.buffer; pure (record bw { buffer = [] })

-- Where the bytes do not fit: the buffer is written out first, and what is longer than the whole
-- buffer goes past it.
unfoldable pub write_cold : BufWriter → Bytes → Io IoError BufWriter
write_cold bw bytes = do
  bw' ← if ltb (bw.capacity - length bw.buffer) (length bytes) then flush_buffer bw else pure bw
  if leb bw'.capacity (length bytes)
      then (do write_all bw'.file bytes; pure bw')
      else pure (record bw' { buffer = bw'.buffer ++ bytes })

unfoldable pub write_buffered : BufWriter → Bytes → Io IoError BufWriter
write_buffered bw bytes =
    if ltb (length bytes) (bw.capacity - length bw.buffer)
    then pure (record bw { buffer = bw.buffer ++ bytes })
    else write_cold bw bytes
