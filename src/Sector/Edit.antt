-- ===== src/Sector/Edit.antt =====
-- The methods of src/Sector.cpp that change one sector without another.
use samdisk_plus.Prelude.{
  ℕ, zero, suc, ◌+◌, ◌-◌, ◌==◌, ltb, leb, Bool, true, false, not, ◌&&◌, List, [], ◌∷◌, ◌++◌,
  if◌then◌else◌, length, get_or, set, take, replicate, map,
}
use samdisk_plus.Prelude.Int.{pos_part}
use samdisk_plus.Header.{DataRate, are_interchangeably_equal_datarates, convert_offset_by_datarate}
use samdisk_plus.Ibm.{ibm_dam}
use samdisk_plus.Sector.{
  Options, Sector, size, copies, has_data, data_size, has_gapdata, same_datarate,
}

-- `resize` of a vector: cut, or filled up with `fill`.
abbrev pub resize {ℓ} : {A : Type ℓ} → A → ℕ → List A → List A
resize fill n xs = take n xs ++ replicate (n - length xs) fill

-- `erase` of one element.
abbrev pub erase {ℓ} : {A : Type ℓ} → ℕ → List A → List A
erase i [] = []
erase zero (x ∷ xs) = xs
erase (suc i) (x ∷ xs) = x ∷ erase i xs

unfoldable pub remove_data : Sector → Sector
remove_data s = record s {
  data_copies = [];
  data_read_stats = [];
  bad_data_crc = false;
  dam = ibm_dam;
}

unfoldable pub erase_data : ℕ → Sector → Sector
erase_data i s = record s {
  data_copies = erase i s.data_copies;
  data_read_stats = erase i s.data_read_stats;
}

unfoldable pub resize_data : ℕ → Sector → Sector
resize_data count s = record s {
  data_copies = resize [] count s.data_copies;
  data_read_stats = resize 0 count s.data_read_stats;
}

abbrev pub are_copies_full : ℕ → Sector → Bool
are_copies_full max_copies s = leb max_copies (copies s)

unfoldable pub limit_copies : ℕ → Sector → Sector
unfolding resize_data
limit_copies max_copies s = if ltb max_copies (copies s) then resize_data max_copies s else s

unfoldable pub set_badidcrc : Bool → Sector → Sector
unfolding remove_data
set_badidcrc bad s =
    let marked = record s { bad_id_crc = bad } in if bad then remove_data marked else marked

-- Bad data become good: without paranoia one copy stays, and short copies are filled up.
unfoldable pub set_baddatacrc : Options → Bool → Sector → Sector
unfolding resize_data size
set_baddatacrc o bad s =
    let marked = record s { bad_data_crc = bad } in
    let kept = if ltb 1 (copies s) && not o.paranoia then resize_data 1 marked else marked in
    let pad = replicate (size s - data_size kept) (pos_part o.fill) in
    let filled =
      if ltb (data_size kept) (size s)
      then record kept { data_copies = map (λ d. d ++ pad) kept.data_copies }
      else kept in
    if not bad && has_data s then filled else marked

unfoldable pub remove_gapdata : Bool → Sector → Sector
unfolding size
remove_gapdata keep_crc s =
    let with_crc : List ℕ → Bool =
      λ d. keep_crc && (s.bad_data_crc && leb (size s + 2) (length d)) in
    if has_gapdata s
    then record s {
      data_copies = map (λ d. resize 0 (if with_crc d then size s + 2 else size s) d) s.data_copies;
    }
    else s

-- Older images have no read stats.
unfoldable pub fix_readstats : Sector → Sector
fix_readstats s =
    if ltb 0 (copies s) && length s.data_read_stats == 0
    then record s { data_read_stats = replicate (copies s) 1; read_attempts = copies s }
    else s

unfoldable pub assign : List ℕ → Sector → Sector
assign bytes s = record s { data_copies = bytes ∷ []; read_attempts = 1; data_read_stats = 1 ∷ [] }

unfoldable pub set_read_attempts : ℕ → Sector → Sector
set_read_attempts n s = record s { read_attempts = n }

unfoldable pub add_read_attempts : ℕ → Sector → Sector
add_read_attempts n s = record s { read_attempts = s.read_attempts + n }

unfoldable pub set_constant_disk : Bool → Sector → Sector
set_constant_disk constant_disk s = record s { constant_disk = constant_disk }

unfoldable pub add_read_stats : ℕ → ℕ → Sector → Sector
add_read_stats i n s = record s {
  data_read_stats = set s.data_read_stats i (get_or s.data_read_stats i 0 + n);
}

unfoldable pub set_read_stats : ℕ → ℕ → Sector → Sector
set_read_stats i n s = record s { data_read_stats = set s.data_read_stats i n }

-- The sector itself is as before in the source too, which moves its data away and back.
unfoldable pub copy_without_data : Options → Bool → Sector → Sector
unfolding set_baddatacrc
copy_without_data o keep_read_attempts s =
    let bare = set_baddatacrc o false (record s { data_copies = []; data_read_stats = [] }) in
    if keep_read_attempts then bare else record bare { read_attempts = 0 }

-- Offset 0 means that there is no offset; the result is whether it was 0.
unfoldable pub make_offset_not0 : Sector → Sector × Bool
make_offset_not0 s =
    if s.offset == 0 then (record s { offset = s.offset + 1 }, true) else (s, false)

unfoldable pub normalise_datarate : DataRate → Sector → Sector
normalise_datarate target s =
    if not (same_datarate target s.datarate)
      && are_interchangeably_equal_datarates s.datarate target
    then record s {
      offset = convert_offset_by_datarate s.offset s.datarate target;
      datarate = target;
    }
    else s
