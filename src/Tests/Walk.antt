-- ===== src/Tests/Walk.antt =====
-- A walk over a directory with a file, a link to a directory and a subdirectory.
use cursedelete.Base.{
  ℕ, suc, ◌<◌, ◌≡◌, refl, sym, subst, ◌⊎◌, inl, inr, true, false, none, some, List, [], ◌∷◌, arith,
  ltb, if◌then◌else◌, Bool-cases, length, Text, FilePath, codes, text_eq, text_eq_iff, i64_limit,
  Result, ok,
}
use cursedelete.Entry.{EntryTimes}
use cursedelete.Engine.{EnumEvent, entry, directory_complete}
use cursedelete.Paths
use cursedelete.Paths.{join}
use cursedelete.Pipeline.System.Keeping.{Protocol}
use cursedelete.Walk.{
  RawChild, OpenDir, Host, Walk, Walked, subdirectory, leaf, recurses, stream_tree,
}
use cursedelete.Walk
use cursedelete.Walk.Protocol.{Sent, stream_tree-Protocol}
use cursedelete.Walk.Ends
use cursedelete.Walk.Ends.{IsFinite, stream_tree_ends}
use cursedelete.Walk.Links.{IsClosed, Agree, RealChildren, stream_tree_inside}

abbrev never : EntryTimes
never = record { modified = none; created = none; accessed = none }

abbrev a_file : RawChild
a_file = record {
  name = codes "f";
  is_dir = false;
  is_reparse_point = false;
  size = 5;
  times = never;
  readonly = false;
}

abbrev a_link : RawChild
a_link = record {
  name = codes "l";
  is_dir = true;
  is_reparse_point = true;
  size = 0;
  times = never;
  readonly = false;
}

abbrev a_dir : RawChild
a_dir = record {
  name = codes "d";
  is_dir = true;
  is_reparse_point = false;
  size = 0;
  times = never;
  readonly = false;
}

abbrev top : FilePath
top = codes "/x"

abbrev children : List RawChild
children = a_file ∷ a_link ∷ a_dir ∷ []

-- The root has children; all else is empty.
abbrev listing : FilePath → Result (List RawChild) Text
listing p = if text_eq p top then ok children else ok []

abbrev host : Host
host = record {
  list_children = λ n p. listing p;
  is_cancelled = λ n. false;
  receives = λ n. ltb n 100;
}

abbrev root_dir : OpenDir
root_dir = record { dir_id = 0; path = top }

abbrev events : List EnumEvent
events =
    entry (leaf root_dir a_file)
    ∷ entry (leaf root_dir a_link)
    ∷ entry (subdirectory root_dir a_dir 1)
    ∷ directory_complete 0
    ∷ directory_complete 1
    ∷ []

walks : stream_tree host 3 top ≡ some (ok (record { events = events; dir_ids = 2; stack = [] }))
unfolding stream_tree Walk.stream Walk.visit Walk.visit_children Walk.visit_child Walk.send text_eq
    join Paths.components Paths.normal_components
walks = refl

sends : Sent events (stream_tree host 3 top)
sends = (record { events = events; dir_ids = 2; stack = [] }, refl, inl walks)

few_events : (n : ℕ) → ltb n 100 ≡ true → suc n < i64_limit
few_events n h = ground arith

stream_tree-Protocol_example : Protocol (0 ∷ []) 1 events × (length events < i64_limit)
stream_tree-Protocol_example = stream_tree-Protocol host 3 top events few_events sends

abbrev weight : FilePath → ℕ
weight p = if text_eq p top then 2 else 1

host-IsFinite : IsFinite weight host
unfolding text_eq join Paths.components Paths.normal_components
host-IsFinite = record {
  positive = λ p. ground arith;
  listed = λ n p cs h. elim (Bool-cases (text_eq p top)) [
    | inl y ↦
        let e : children ≡ cs = ground (arith, y) in
        subst (λ q. Ends.children_weight weight q cs < weight q) (sym ((text_eq_iff p top).0 y))
          (subst (λ c. Ends.children_weight weight top c < weight top) e (ground arith))
    | inr y ↦
        let e : [] ≡ cs = ground (arith, y) in
        subst (λ c. Ends.children_weight weight p c < weight p) e (ground arith)
  ];
}

stream_tree_ends_example : (r : Walked) × (stream_tree host 3 top ≡ some r)
unfolding text_eq
stream_tree_ends_example = stream_tree_ends weight host top 3 host-IsFinite (omega arith)

-- The root and its subdirectory, but not what the link leads to.
abbrev Inside : FilePath → Type 0
Inside p = (text_eq p top ≡ true) ⊎ (text_eq p (codes "/x/d") ≡ true)

-- The same with a directory behind the link.
abbrev linked : Host
linked = record host {
  list_children = λ n p. if text_eq p (codes "/x/l") then ok children else listing p;
}

Inside-IsClosed : IsClosed Inside host
unfolding text_eq join Paths.components Paths.normal_components
Inside-IsClosed n p cs (inl y) h =
    let e : children ≡ cs = ground (arith, y) in
    subst (λ q. RealChildren Inside q cs) (sym ((text_eq_iff p top).0 y))
      (subst (RealChildren Inside top) e
        ((λ d r. ground arith), ((λ d r. ground (arith, d, r)), ((λ d r. inr refl), tt))))
Inside-IsClosed n p cs (inr y) h =
    subst (λ q. RealChildren Inside q cs) (sym ((text_eq_iff p (codes "/x/d")).0 y))
      (let k : listing (codes "/x/d") ≡ ok cs =
          subst (λ q. listing q ≡ ok cs) ((text_eq_iff p (codes "/x/d")).0 y) h in
        let e : [] ≡ cs = cc in subst (RealChildren Inside (codes "/x/d")) e tt)

hosts-Agree : Agree Inside host linked
unfolding text_eq
hosts-Agree = record {
  listings = λ n p i. elim i [
    | inl y ↦
        subst (λ q. host.list_children n q ≡ linked.list_children n q)
          (sym ((text_eq_iff p top).0 y)) refl
    | inr y ↦
        subst (λ q. host.list_children n q ≡ linked.list_children n q)
          (sym ((text_eq_iff p (codes "/x/d")).0 y)) refl
  ];
  cancels = λ n. refl;
  channel = λ n. refl;
}

stream_tree_inside_example : stream_tree host 3 top ≡ stream_tree linked 3 top
unfolding text_eq
stream_tree_inside_example =
    stream_tree_inside Inside host linked 3 top (inl refl) Inside-IsClosed hosts-Agree
