-- ===== src/Client/Chats/Hold.antt =====
-- The invariant of the client's chats (client/chats.c), and that the operations on chats keep it.
use mathlib.Core.Path.{subst}
use psd_ims.Prelude.{
  Bool-cases, ℕ, zero, suc, ◌≡◌, ◌∙◌, sym, Bool, true, false, Option, some, List, [], ◌∷◌, All, set,
  Text, arith, Option-cases, inl, inr, erase_idx, length-set,
}
use psd_ims.Prelude.Int.{ℤ, pos, same_int, same_int_sound}
use psd_ims.ItemList.{
  ItemList, find_node, list_add_item, list_find_node, list_delete_node, list_new,
}
use psd_ims.ItemList.Ring.Life.{empty_list, empty_list-IsMap}
use psd_ims.ItemList.Bounds.{Distinct, All-append_one, All-erase_idx}
use psd_ims.ItemList.Find.{find, Status-cases}
use psd_ims.ItemList.Lookup.{Keyed, IsMap, list_add_item-IsMap, list_find_item-find}
use psd_ims.Client.Common.{
  by_name, by_number, delete_value, delete_value-IsMap, set_timestamp, ListInfo,
}
use psd_ims.Client.Friends.{FriendInfo}
use psd_ims.Client.Members.{
  MemberInfo, ChatMembers, members_new, members_add_member, members_del_member,
}
use psd_ims.Client.Messages.{MessageInfo, mes_new}
use psd_ims.Client.Chats.{
  new_chat_info, member_find_member, ChatInfo, Chats, chat_comp, cha_add_chat, cha_add_member,
  cha_change_admin, cha_del_chat, cha_del_member, cha_find_chat, write_chat, add_members,
}

abbrev pub by_id : Keyed ChatInfo ℤ
by_id = by_number (λ c. c.id)

abbrev pub by_member : Keyed MemberInfo Text
by_member = by_name (λ m. m.name)

abbrev pub by_time : Keyed MessageInfo ℤ
by_time = by_number (λ m. m.timestamp)

-- The members and the messages of a chat are valid maps.
pub record ChatHolds (c : ChatInfo) : Type 0 where
  pub members : IsMap by_member c.members
  pub messages : IsMap by_time c.messages

-- The chats are a valid map, and each of them is as it should be.
pub record ChatsHold (l : Chats) : Type 0 where
  pub map : IsMap by_id l
  pub each : All ChatHolds l.items

module _ {A : Type 0} where
  pub All-set : (P : A → Type 0) (xs : List A) (i : ℕ) (v : A) → All P xs → P v → All P (set xs i v)
  All-set P [] i v h p = tt
  All-set P (x ∷ xs) zero v h p = (p, h.1)
  All-set P (x ∷ xs) (suc i) v h p = (h.0, All-set P xs i v h.1 p)

  pub find-All :
      (P : A → Type 0) (p : A → Bool) (xs : List A) (x : A) → All P xs → find p xs ≡ some x → P x
  unfolding find
  find-All P p [] x h e = absurd (ground (arith, e))
  find-All P p (y ∷ ys) x h e = elim (Bool-cases (p y)) [
    | inl t ↦ subst P (ground (arith, e, t)) h.0
    | inr f ↦ find-All P p ys x h.1 (ground (arith, e, f))
  ]

All-other :
    (xs : List ChatInfo) (x c : ChatInfo)
    → x.id ≡ c.id
    → All (λ y. chat_comp x y ≡ false) xs
    → All (λ y. chat_comp c y ≡ false) xs
All-other [] x c e h = tt
All-other (y ∷ ys) x c e h = (ground (arith, e, h.0), All-other ys x c e h.1)

Distinct-set :
    (xs : List ChatInfo) (i : ℕ) (id : ℤ) (c : ChatInfo)
    → find_node (λ x. same_int x.id id) xs ≡ some i
    → c.id ≡ id
    → Distinct chat_comp xs
    → Distinct chat_comp (set xs i c)
unfolding find_node
Distinct-set [] i id c h e d = tt
Distinct-set (x ∷ xs) zero id c h e d =
    (All-other xs x c (ground (arith, h, e, same_int_sound x.id id)) d.0, d.1)
Distinct-set (x ∷ xs) (suc i) id c h e d = (
  All-set (λ y. chat_comp x y ≡ false) xs i c d.0 (ground (arith, h, e)),
  Distinct-set xs i id c (ground (arith, h)) e d.1,
)

pub write_chat-ChatsHold :
    (l : Chats) (id : ℤ) (c : ChatInfo)
    → ChatsHold l
    → c.id ≡ id
    → ChatHolds c
    → ChatsHold (write_chat l id c)
unfolding write_chat list_find_node
write_chat-ChatsHold l id c h e k = elim (Option-cases (list_find_node l id)) [
  | inl n ↦ rw (n, write_chat) h
  | inr (i, n) ↦
      rw (n, write_chat)
        (record {
          map = record {
            valid = record {
              compares = h.map.valid.compares;
              counted = h.map.valid.counted ∙ sym (length-set l.items i c);
              bounded = omega (arith, h.map.valid.bounded, length-set l.items i c);
              distinct =
                  Distinct-set l.items i id c (ground (arith, n, h.map.compares_key)) e
                    h.map.valid.distinct;
            };
            compares_key = h.map.compares_key;
          };
          each = All-set ChatHolds l.items i c h.each k;
        })
]

pub cha_find_chat-ChatHolds :
    (l : Chats) (id : ℤ) (c : ChatInfo) → ChatsHold l → cha_find_chat l id ≡ some c → ChatHolds c
unfolding cha_find_chat
cha_find_chat-ChatHolds l id c h e =
    find-All ChatHolds (λ x. same_int x.id id) l.items c h.each
      (sym (list_find_item-find by_id l id h.map.compares_key) ∙ e)

pub set_timestamp-ChatsHold : (l : Chats) (t : ℤ) → ChatsHold l → ChatsHold (set_timestamp l t)
set_timestamp-ChatsHold l t h = record {
  map = record {
    valid = record {
      compares = h.map.valid.compares;
      counted = h.map.valid.counted;
      bounded = h.map.valid.bounded;
      distinct = h.map.valid.distinct;
    };
    compares_key = h.map.compares_key;
  };
  each = h.each;
}

pub members_add_member-IsMap :
    (l : ChatMembers) (name : Text) (info : Option FriendInfo) (granted : Bool)
    → IsMap by_member l
    → IsMap by_member (members_add_member l name info granted).0
unfolding members_add_member
members_add_member-IsMap l name info true m =
    list_add_item-IsMap by_member l (some (record { name = name; info = info })) true m
members_add_member-IsMap l name info false m = m

add_members-IsMap :
    (l : ChatMembers) (names : List (Text × Option FriendInfo)) (granted : Bool)
    → IsMap by_member l
    → IsMap by_member (add_members l names granted).0
unfolding add_members
add_members-IsMap l [] granted m = m
add_members-IsMap l ((name, friend) ∷ rest) granted m =
    let one = members_add_member-IsMap l name friend granted m in
    elim (Status-cases (members_add_member l name friend granted).1) [
      | inl e ↦
          rw (e, add_members)
            (add_members-IsMap (members_add_member l name friend granted).0 rest granted one)
      | inr e ↦ rw (e, add_members) one
    ]

-- The chat that `cha_add_chat` adds, or an unchanged list.
added_chat-ChatsHold :
    (l : Chats) (c : ChatInfo) (granted : Bool)
    → ChatsHold l
    → ChatHolds c
    → ChatsHold (list_add_item l (some c) granted).0
added_chat-ChatsHold l c granted h k = record {
  map = list_add_item-IsMap by_id l (some c) granted h.map;
  each =
      unfold list_add_item in
      ground (arith, h.each, h.map.valid.compares, All-append_one ChatHolds l.items c h.each k);
}

pub cha_add_chat-ChatsHold :
    (l : Chats) (id : ℤ) (description admin : Text) (names : List (Text × Option FriendInfo))
    (max_members max_messages : ℕ) (read all_read : ℤ) (granted : Bool)
    → ChatsHold l
    → ChatsHold
        (cha_add_chat l id description admin names max_members max_messages read all_read granted).0
unfolding cha_add_chat members_new mes_new list_new
cha_add_chat-ChatsHold l id description admin names max_members max_messages read all_read false h =
    h
cha_add_chat-ChatsHold l id description admin names max_members max_messages read all_read true h =
    let zero_info : ListInfo = record { timestamp = pos 0 } in
    let members = empty_list by_member zero_info max_members in
    let messages = empty_list by_time zero_info max_messages in
    elim (Status-cases (add_members members names true).1) [
      | inr e ↦ rw (e, cha_add_chat) h
      | inl e ↦
          rw (e, cha_add_chat)
            (added_chat-ChatsHold l
              (new_chat_info id description admin (add_members members names true).0 messages read
                all_read)
              true h
              (record {
                members =
                    add_members-IsMap members names true
                      (empty_list-IsMap by_member zero_info max_members);
                messages = empty_list-IsMap by_time zero_info max_messages;
              }))
    ]

pub cha_add_member-ChatHolds :
    (c : ChatInfo) (friend : Option FriendInfo) (name : Text) (granted : Bool)
    → ChatHolds c
    → ChatHolds (cha_add_member c friend name granted).0
unfolding cha_add_member
cha_add_member-ChatHolds c friend name granted h = record {
  members = members_add_member-IsMap c.members name friend granted h.members;
  messages = h.messages;
}

pub cha_del_member-ChatHolds :
    (c : ChatInfo) (name : Text) → ChatHolds c → ChatHolds (cha_del_member c name).0
unfolding cha_del_member members_del_member
cha_del_member-ChatHolds c name h = record {
  members = delete_value-IsMap by_member c.members name h.members;
  messages = h.messages;
}

pub cha_change_admin-ChatHolds :
    (c : ChatInfo) (name : Text) (granted : Bool)
    → ChatHolds c
    → ChatHolds (cha_change_admin c name granted).0
unfolding cha_change_admin
cha_change_admin-ChatHolds c name granted h =
    elim (Option-cases (member_find_member c.members name)) [
      | inl n ↦ rw (n, cha_change_admin) h
      | inr (m, n) ↦
          rw (n, cha_change_admin)
            (elim (Bool-cases granted) [
              | inl t ↦ rw t (record { members = h.members; messages = h.messages })
              | inr f ↦ rw f h
            ])
    ]

delete_value-items :
    {A V I : Type 0} (l : ItemList A V I) (v : V) (i : ℕ)
    → list_find_node l v ≡ some i
    → (delete_value l v).0.items ≡ erase_idx l.items i
unfolding delete_value list_delete_node
delete_value-items l v i n = ground (arith, n)

delete_value-All :
    {A V I : Type 0} (P : A → Type 0) (l : ItemList A V I) (v : V)
    → All P l.items
    → All P (delete_value l v).0.items
unfolding delete_value
delete_value-All P l v h = elim (Option-cases (list_find_node l v)) [
  | inl n ↦ subst (λ xs. All P xs) (ground (arith, n)) h
  | inr (i, n) ↦
      subst (λ xs. All P xs) (sym (delete_value-items l v i n)) (All-erase_idx P l.items i h)
]

pub cha_del_chat-ChatsHold : (l : Chats) (id : ℤ) → ChatsHold l → ChatsHold (cha_del_chat l id).0
unfolding cha_del_chat
cha_del_chat-ChatsHold l id h = record {
  map = delete_value-IsMap by_id l id h.map;
  each = delete_value-All ChatHolds l id h.each;
}
