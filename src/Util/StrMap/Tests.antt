-- ===== src/Util/StrMap/Tests.antt =====
-- Small maps of src/util/str_map.c.
use molto.Base.{ℕ, ◌≡◌, refl, none, some, ◌>>=◌, List, [], ◌∷◌, codes, bytes_eq}
use molto.Util.StrMap.{
  hash_key, hash_from, str_map_create, str_map_put, str_map_get, str_map_remove, room_for_one,
  rebuild_index, reinsert, place_from, probe, probe_from, str_map_size,
}
use molto.Util.StrMap.Runs.{
  Change, put, remove, change, change_all, meant_all, change_all-meant_all,
}

-- The code starts from the basis that is published for the hash, without its last digit.
hash_key_a : hash_key (codes "a") ≡ 4953267810257967366
unfolding hash_key hash_from
hash_key_a = refl

abbrev two_puts : List (Change ℕ)
two_puts = put (codes "a") 1 ∷ put (codes "b") 2 ∷ put (codes "a") 3 ∷ remove (codes "b") ∷ []

change_all_released :
    (change_all str_map_create two_puts >>= λ map. some map.released) ≡ some (2 ∷ 1 ∷ [])
unfolding change_all change str_map_create str_map_put str_map_remove room_for_one rebuild_index
    reinsert place_from probe probe_from hash_key hash_from bytes_eq str_map_size
change_all_released = refl

change_all-meant_all_example :
    (change_all str_map_create two_puts >>= λ map. str_map_get map (codes "a"))
    ≡ some (meant_all (λ _. none) two_puts (codes "a"))
change_all-meant_all_example = change_all-meant_all two_puts (codes "a")
