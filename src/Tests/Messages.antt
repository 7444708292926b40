-- ===== src/Tests/Messages.antt =====
-- Messages, tables and lists for the runs of the programs of lib/zeromq/MDP.
use sweet_clib.Prelude.{
  ℕ, ◌*◌, refl, Bool, false, Option, none, some, List, [], ◌∷◌, ◌++◌, if◌then◌else◌, length,
}
use sweet_clib.Text.{Bytes, strcmp_eq}
use sweet_clib.Czmq.{
  Zmsg, Zhash, Zlist, first_of, rest_of_list, last_of, with_last, drop_empty, remove_first,
}
use sweet_clib.Mdp.Broker.{World, same_ptr}

abbrev pub plain_zmsg : Zmsg
plain_zmsg = record {
  Msg = List Bytes;
  frames = λ m. m;
  zmsg_new = [];
  zmsg_push = λ m f. f ∷ m;
  zmsg_wrap = λ m f. f ∷ [] ∷ m;
  zmsg_pop = λ m. (first_of m, rest_of_list m);
  zmsg_unwrap = λ m. (first_of m, drop_empty (rest_of_list m));
  zmsg_size = λ m. length m;
  zmsg_first = λ m. first_of m;
  zmsg_last = λ m. last_of m;
  reset_last = λ m f. with_last f m;
  frames-new = refl;
  frames-push = λ m f. refl;
  frames-wrap = λ m f. refl;
  popped = λ m. refl;
  frames-pop = λ m. refl;
  unwrapped = λ m. refl;
  frames-unwrap = λ m. refl;
  zmsg_first-frames = λ m. refl;
  zmsg_last-frames = λ m. refl;
  frames-reset_last = λ m f. refl;
  zmsg_size-frames = λ m. refl;
}

abbrev pub plain_zhash : Zhash
plain_zhash = record {
  Hash = Bytes → Option ℕ;
  zhash_new = λ k. none;
  zhash_lookup = λ t k. t k;
  zhash_insert = λ t k v q. if strcmp_eq q k then some v else t q;
  zhash_delete = λ t k q. if strcmp_eq q k then none else t q;
  lookup-new = λ k. refl;
  lookup-insert = λ t k q v missing. refl;
  lookup-delete = λ t k q. refl;
}

abbrev pub plain_zlist : (A : Type 0) (same : A → A → Bool) → Zlist A same
plain_zlist A same = record {
  Items = List A;
  items = λ l. l;
  zlist_new = [];
  zlist_append = λ l x. l ++ x ∷ [];
  zlist_pop = λ l. (first_of l, rest_of_list l);
  zlist_remove = λ l x. remove_first same x l;
  zlist_first = λ l. first_of l;
  zlist_size = λ l. length l;
  items-new = refl;
  items-append = λ l x. refl;
  popped_item = λ l. refl;
  items-pop = λ l. refl;
  items-remove = λ l x. refl;
  zlist_first-items = λ l. refl;
  zlist_size-items = λ l. refl;
}

-- The clock goes on by 1000 with each reading.
abbrev pub plain_world : World
plain_world = record {
  zmsg = plain_zmsg;
  zhash = plain_zhash;
  pointers = plain_zlist ℕ same_ptr;
  queues = plain_zlist (List Bytes) (λ p q. false);
  strhex = λ f. f;
  clock = λ n. n * 1000;
}
