-- ===== src/Page/Table.antt =====
-- pco/src/compression_table.rs, with the infos of pco/src/compression_intermediates.rs.
use pcodec.Common.{
  ℕ, zero, suc, ◌+◌, ◌-◌, ◌^◌, if◌then◌else◌, leb, List, [], ◌∷◌, ◌++◌, length, map,
}
use pcodec.Common.Pow.{ilog2}
use pcodec.Machine.{shl}

-- `BinCompressionInfo`; a latent is a number.
pub record BinCompressionInfo : Type 0 where
  pub weight : ℕ
  pub lower : ℕ
  pub upper : ℕ
  pub offset_bits : ℕ
  pub symbol : ℕ

pub record CompressionTable : Type 0 where
  pub search_size_log : ℕ
  pub search_lowers : List ℕ
  pub infos : List BinCompressionInfo

unfoldable pub search_size_log_for : ℕ → ℕ
search_size_log_for n = if leb n 1 then 0 else 1 + ilog2 (n - 1)

-- The loop that pads with `L::MAX`, with the number of places that are left to fill.
unfoldable pub pad_lowers : ℕ → ℕ → List ℕ → List ℕ
pad_lowers w zero lowers = lowers
pad_lowers w (suc left) lowers = pad_lowers w left (lowers ++ ((2 ^ w - 1) ∷ []))

-- `sort_by_lower` is the `sort_unstable_by_key` of the standard library.
unfoldable pub from_infos :
    ℕ
    → (List BinCompressionInfo → List BinCompressionInfo)
    → List BinCompressionInfo
    → CompressionTable
unfolding search_size_log_for pad_lowers
from_infos w sort_by_lower infos =
    let sorted = sort_by_lower (sort_by_lower infos) in
    let search_size_log = search_size_log_for (length (sort_by_lower infos)) in
    let lowers = map BinCompressionInfo.lower sorted in
    record {
      search_size_log = search_size_log;
      search_lowers = pad_lowers w (shl 64 1 search_size_log - length lowers) lowers;
      infos = sorted;
    }
