-- ===== src/Metadata/FormatVersion.antt =====
-- pco/src/metadata/format_version.rs. A version is a byte.
use pcodec.Common.{ℕ, if◌then◌else◌, leb, ltb, ◌==◌, Bool, [], ◌∷◌}
use pcodec.Errors.{Result, ok, err, ◌>>=◌, compatibility}
use pcodec.Slice.{index}
use pcodec.BitReader.{BitReader, read_aligned_bytes}
use pcodec.BitWriter.{BitWriter, write_aligned_bytes}

abbrev pub current_format_version : ℕ
current_format_version = 3

unfoldable pub read_version : BitReader → Result (ℕ × BitReader)
read_version r = do
  (bytes, r') ← read_aligned_bytes r 1
  version ← index bytes 0
  (if ltb current_format_version version then err compatibility else ok (version, r'))

unfoldable pub write_version : ℕ → BitWriter → Result (ℕ × BitWriter)
write_version version wr = do wr' ← write_aligned_bytes wr (version ∷ []); ok (1, wr')

unfoldable pub used_old_gcds : ℕ → Bool
used_old_gcds version = version == 0

unfoldable pub supports_delta_variants : ℕ → Bool
supports_delta_variants version = leb 3 version
