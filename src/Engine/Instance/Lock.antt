-- ===== src/Engine/Instance/Lock.antt =====
-- The lock of an instance and the engine's map of cancel functions.
use direktiv.Base.{
  ◌≡◌, insert, true, false, none, some, lookup, lookup-delete, lookup-insert_self, str_eq_self,
  arith,
}
use direktiv.Engine.World.{World, returned, panicked, answer_of}
use direktiv.Engine.Instance.{lock, unlock, local_cancel}

-- `lock` and then `unlock`: with a database that answers, the instance is locked and registered in
-- between, and unlocked and unregistered after; nothing panics.
unlock-lock :
    (w : World)
    → answer_of w.writes ≡ none
    → let l = lock w in
      let u = unlock l.1 in
      (l.0 ≡ returned tt)
      × (l.1.instance.locked ≡ true)
      × (lookup w.instance.id l.1.cancels ≡ some tt)
      × (u.0 ≡ returned tt)
      × (u.1.instance.locked ≡ false)
      × (lookup w.instance.id u.1.cancels ≡ none)
unfolding lock unlock
unlock-lock w a =
    let p = lookup-insert_self w.instance.id tt w.cancels in
    (
      ground arith,
      ground arith,
      ground (arith, p),
      ground (arith, p),
      ground (arith, p),
      ground (
        arith,
        p,
        lookup-delete w.instance.id w.instance.id (insert w.instance.id tt w.cancels),
        str_eq_self w.instance.id,
      ),
    )

-- After `localCancel` of a locked instance, which takes its cancel function off the map, the
-- instance's own `unlock` calls a nil function and panics, before the database lock is given up.
pub unlock-local_cancel :
    (w : World)
    → w.instance.locked ≡ true
    → let c = local_cancel w.instance.id w in
      (c.0 ≡ returned tt) × ((unlock c.1).0 ≡ panicked) × ((unlock c.1).1.instance.locked ≡ true)
unfolding local_cancel unlock
unlock-local_cancel w h =
    let p = lookup-delete w.instance.id w.instance.id w.cancels in
    let q = str_eq_self w.instance.id in (ground arith, ground (arith, p, q), ground (arith, p, q))
