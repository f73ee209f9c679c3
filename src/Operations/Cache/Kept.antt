-- ===== src/Operations/Cache/Kept.antt =====
-- What holds of every entry of the cache goes on to hold.
use pyiamkit.Prelude.{Bool, [], ◌∷◌, Text, All, arith}
use pyiamkit.Operations.Cache.{AuthorizationCacheEntry, Entries, delete, put, store_entry}

pub delete-All :
    (P : Text × AuthorizationCacheEntry → Type 0) (k : Text) (es : Entries)
    → All P es
    → All P (delete k es)
unfolding delete
delete-All P k [] h = h
delete-All P k ((j, e) ∷ es) (p, h) = ground (arith, delete-All P k es h)

store_entry-All :
    (P : Text × AuthorizationCacheEntry → Type 0) (k : Text) (e : AuthorizationCacheEntry)
    (es : Entries)
    → P (k, e)
    → All P es
    → All P (store_entry k e es)
unfolding store_entry
store_entry-All P k e [] p h = (p, h)
store_entry-All P k e ((j, f) ∷ es) p (q, h) = ground (arith, store_entry-All P k e es p h)

pub put-All :
    (P : Text × AuthorizationCacheEntry → Type 0) (cache_denials : Bool)
    (e : AuthorizationCacheEntry) (es : Entries)
    → P (e.key, e)
    → All P es
    → All P (put cache_denials e es)
unfolding put
put-All P cache_denials e es p h = ground (arith, store_entry-All P e.key e es p h)
