-- ===== src/Machines/Registry/Takeover.antt =====
-- A daemon that registers a machine anew takes it over from the connection before.
use pi_remote.Prelude.{
  ℕ, String, some, List, [], ◌∷◌, ◌≡◌, ◌≢◌, refl, sym, string_eq, lookup-insert_self,
  lookup-insert_ne, ==_ne, if◌then◌else◌, ◌==◌,
}
use pi_remote.Machines.Registry.{Machine, Registry, online, register, get, unregister_by_conn}

-- After a take-over by connection `new` the clean-up of the connection `old` removes nothing: the
-- machine is registered, online and bound to `new`.
pub unregister_by_conn-register :
    (id name version : String) (caps : List String) (old new now : ℕ) (m : Registry)
    → old ≢ new
    → let q = (register id name version caps (some new) now m).0 in
      (unregister_by_conn id (some old) q ≡ q)
      × ((x : Machine) × (get id q ≡ some x) × (x.conn ≡ some new) × (x.state ≡ online))
unfolding unregister_by_conn register get
unregister_by_conn-register id name version caps old new now m ne =
    let found = lookup-insert_self id _ m in
    (rw (found, unregister_by_conn) (rw (==_ne new old (λ e. ne (sym e)))), (_, found, refl, refl))

-- `Register` closes the connection of the entry before exactly if that entry has another one, and
-- leaves the other machines as they were.
pub register_closes :
    (id name version : String) (caps : List String) (old new now : ℕ) (m : Registry)
    (prev : Machine)
    → get id m ≡ some prev
    → prev.conn ≡ some old
    → ((register id name version caps (some new) now m).1 ≡ (if old == new then [] else old ∷ []))
      × ((k : String) → k ≢ id → get k (register id name version caps (some new) now m).0 ≡ get k m)
unfolding register get
register_closes id name version caps old new now m prev e c =
    (rw (e, c), λ k ne. lookup-insert_ne id k _ m (λ h. ne (sym h)))
