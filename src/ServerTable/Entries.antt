-- ===== src/ServerTable/Entries.antt =====
-- What inserting and deleting do to the table of src/server_table.c.
use reqrypt.Common.{
  Bool-cases, str_same, str_same_self, ℕ, ◌≡◌, inl, inr, true, false, Option, none, some, List, [],
  ◌∷◌,
}
use reqrypt.ServerTable.{ServerEntry, server_table_insert, server_table_delete}

-- The first entry with the URL is the removed one; the entries before it have other URLs.
pub data Found (url : List ℕ) : List ServerEntry → Option ℕ × List ServerEntry → Type 0 where
  absent : Found url [] (none, [])
  here :
      {entry : ServerEntry} {table : List ServerEntry}
      → str_same entry.url url ≡ true
      → Found url (entry ∷ table) (some entry.pid, table)
  later :
      {entry : ServerEntry} {table rest : List ServerEntry} {pid : Option ℕ}
      → str_same entry.url url ≡ false
      → Found url table (pid, rest)
      → Found url (entry ∷ table) (pid, entry ∷ rest)

-- `server_table_delete` removes the first entry with the URL and returns its pid, or leaves a table
-- without one as it is; and an entry that was just inserted is the one that is removed.
pub server_table_delete-Found :
    (table : List ServerEntry) (pid : ℕ) (url : List ℕ)
    → Found url table (server_table_delete table url)
      × (server_table_delete (server_table_insert table pid url) url ≡ (some pid, table))
unfolding server_table_delete server_table_insert
server_table_delete-Found table pid url = (first_found table, rw (str_same_self url))
  where
    first_found : (t : List ServerEntry) → Found url t (server_table_delete t url)
    first_found [] = absent
    first_found (entry ∷ t) = elim (Bool-cases (str_same entry.url url)) [
      | inl same ↦ rw same (here same)
      | inr other ↦ rw other (later other (first_found t))
    ]
