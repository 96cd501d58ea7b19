-- ===== src/ServerTable.antt =====
-- src/server_table.c: the table of the servers that run, a linked list. A URL is a C string without
-- its NUL.
pub mod Entries
use reqrypt.Common.{
  ltb, leb, ◌==◌, if◌then◌else◌, ==_iff, Bool-cases, Option-cases, ◌>>=◌, bind-ne-none,
  bind-eq-some, if-ne-none, length, get_elem?, get_or, set, take, drop, replicate, All,
  length-append, length-set, length-take, length-drop, length-replicate, get_elem?-set_self,
  get_elem?-set_ne, get_elem?-eq-get_or, take-append-drop, take-append, drop-append, drop-drop,
  get_elem?-ne-none, drop-set_lt, drop-set_ge, get_elem?-drop, get_elem?-take,
  get_elem?-append_left, drop-take, take_all, drop-append_of_eq, get_elem?-some,
  get_elem?-append_right, append-assoc_cons, get_elem?-inside, get_elem?-replicate, replicate-same,
  get_elem?-All, take-All, drop-All, append-All, take_add, u8, u16, u32, u64, sub64, IsByte,
  IsBytes, ntohs, htons, u8_at, u16_at, u32_at, bytes_at, put_u8, put_u16, get_elem?-IsByte,
  u16_at-lt, drop-IsBytes, take-IsBytes, append-IsBytes, all_bytes, all_bytes-IsBytes, str_same,
  str_same_self, str_same-eq, codes, bit_or-digit, bit_and-digit, bit_or_add, bit_or_none,
  bit_or_add_high, bit_and_63, bit_and_one, bit_xor-digit, bit_xor_cancel, value, value-lt,
  value-append, value-zeros, pow-add, pow-mul, value_next_digit, value-split, same_high,
  value-injective, ℕ, zero, suc, ◌+◌, ◌-◌, ◌*◌, ◌/◌, ◌%◌, ◌^◌, ◌≤◌, ◌<◌, min, bit_and, bit_or,
  bit_xor, ◌≡◌, refl, sym, ap, ◌∙◌, ◌≢◌, ◌↔◌, ◌⊎◌, inl, inr, Bool, true, false, not, ◌&&◌, ◌||◌,
  Option, none, some, List, [], ◌∷◌, ◌++◌, map, arith,
}

pub record ServerEntry : Type 0 where
  pub pid : ℕ
  pub url : List ℕ

-- `server_table_insert`, when the two allocations succeed.
unfoldable pub server_table_insert : List ServerEntry → ℕ → List ℕ → List ServerEntry
server_table_insert table pid url = record { pid = pid; url = url } ∷ table

-- The pid of the entry removed, `none` for `SERVER_DEAD`, and the table without it.
unfoldable pub server_table_delete : List ServerEntry → List ℕ → Option ℕ × List ServerEntry
server_table_delete [] url = (none, [])
server_table_delete (entry ∷ table) url =
    let rest = server_table_delete table url in
    if str_same entry.url url then (some entry.pid, table) else (rest.0, entry ∷ rest.1)
