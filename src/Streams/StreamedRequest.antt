-- ===== src/Streams/StreamedRequest.antt =====
-- grpc_channel/streamed_request/streamed_request_inner.rs, producer.rs and streamed_request.rs.
-- Each operation holds the mutex from its first step to its last, so a run is a sequence of whole
-- operations. A full channel only delays a send.
pub mod Delivery
pub mod Rebinding
use my_grpc_extensions.Prelude.{
  ℕ, zero, suc, Bool, true, false, List, [], ◌∷◌, ◌++◌, Option, none, some, length, ◌==◌,
  if◌then◌else◌,
}

-- One tokio::sync::mpsc channel: what its receiver has been sent, how many items more it takes
-- before it is dropped (`none`: it is not dropped), and whether the sender is alive.
pub record Link (TItem : Type 0) : Type 0 where
  pub received : List TItem
  pub takes : Option ℕ
  pub sender_alive : Bool

-- `Initialized` holds the sender by the number of its channel.
pub data RequestAsStream (TItem : Type 0) : Type 0 where
  not_initialized : List TItem → Bool → RequestAsStream TItem
  initialized : Option ℕ → RequestAsStream TItem

pub data StreamedRequestInner (TItem : Type 0) : Type 0 where
  as_vec : List TItem → StreamedRequestInner TItem
  as_stream : RequestAsStream TItem → StreamedRequestInner TItem

-- A request and the channels that were made for it, the newest first.
pub record StreamedRequest (TItem : Type 0) : Type 0 where
  pub inner : StreamedRequestInner TItem
  pub links : List (Link TItem)
  pub channel_size : ℕ

module _ {TItem : Type 0} where
  unfoldable pub new_as_vec : List TItem → StreamedRequest TItem
  new_as_vec items = record { inner = as_vec items; links = []; channel_size = 1024 }

  unfoldable pub new_as_stream : StreamedRequest TItem
  new_as_stream = record {
    inner = as_stream (not_initialized [] false);
    links = [];
    channel_size = 1024;
  }

  unfoldable pub set_channel_size : StreamedRequest TItem → ℕ → StreamedRequest TItem
  set_channel_size r value = record r { channel_size = value }

  -- `Into<StreamedRequest>` for a vector, and for a set, which is iterated in an order of its own
  unfoldable pub vec_into_request : List TItem → StreamedRequest TItem
  unfolding new_as_vec
  vec_into_request items = new_as_vec items

  unfoldable pub hash_set_into_request :
      {HashSet : Type 0} → (HashSet → List TItem) → HashSet → StreamedRequest TItem
  unfolding new_as_vec
  hash_set_into_request into_iter set = new_as_vec (into_iter set)

  -- `tokio::sync::mpsc::channel`: the number of the new channel is the count of those before it.
  abbrev pub open_link : Option ℕ → Link TItem
  open_link takes = record { received = []; takes = takes; sender_alive = true }

  take_item : Option ℕ → TItem → Link TItem → Bool × Link TItem
  take_item none item l = (true, record l { received = l.received ++ item ∷ [] })
  take_item (some zero) item l = (false, l)
  take_item (some (suc n)) item l =
      (true, record l { received = l.received ++ item ∷ []; takes = some n })

  -- `Sender::send`: an error exactly if the receiver is gone
  unfoldable pub deliver : TItem → Link TItem → Bool × Link TItem
  unfolding take_item
  deliver item l = take_item l.takes item l

  -- a change of the channel with a number
  unfoldable pub at_link : ℕ → (Link TItem → Link TItem) → List (Link TItem) → List (Link TItem)
  at_link id change [] = []
  at_link id change (l ∷ ls) = if length ls == id then change l ∷ ls else l ∷ at_link id change ls

  -- the sender is dropped: the receiver finds the end behind what it was sent
  abbrev pub close_link : Link TItem → Link TItem
  close_link l = record l { sender_alive = false }

  -- `for itm in items { ... sender.send(itm).await ... }` up to an error; whether all were sent
  unfoldable pub send_all : List TItem → Link TItem → Bool × Link TItem
  unfolding deliver
  send_all [] l = (true, l)
  send_all (item ∷ items) l =
      let (sent, l') = deliver item l in
      let rest = send_all items l' in if sent then rest else (false, l')

  -- StreamedRequestInner::send: `none` is a panic
  unfoldable pub send_to :
      RequestAsStream TItem → TItem → StreamedRequest TItem → Option (StreamedRequest TItem)
  unfolding deliver at_link
  send_to (not_initialized items has_end_of_stream) item r =
      if has_end_of_stream
      then none
      else some
          (record r { inner = as_stream (not_initialized (items ++ item ∷ []) has_end_of_stream) })
  send_to (initialized (some sender)) item r = some (record r {
    inner = as_stream (initialized (some sender));
    links = at_link sender (λ l. (deliver item l).1) r.links;
  })
  send_to (initialized none) item r = none

  unfoldable pub send_in :
      StreamedRequestInner TItem → TItem → StreamedRequest TItem → Option (StreamedRequest TItem)
  unfolding send_to
  send_in (as_vec items) item r = none
  send_in (as_stream state) item r = send_to state item r

  unfoldable pub send : TItem → StreamedRequest TItem → Option (StreamedRequest TItem)
  unfolding send_in
  send item r = send_in r.inner item r

  -- `*existing_sender = None`
  unfoldable pub drop_sender : Option ℕ → List (Link TItem) → List (Link TItem)
  unfolding at_link
  drop_sender none links = links
  drop_sender (some id) links = at_link id close_link links

  -- StreamedRequestInner::set_sender, with the channel that `get_consumer` has just made. Where the
  -- sender is not kept it is dropped on return, and so is what `drain` has not given out.
  unfoldable pub set_stream_sender :
      Option ℕ → RequestAsStream TItem → StreamedRequest TItem → StreamedRequest TItem
  unfolding send_all drop_sender
  set_stream_sender takes (not_initialized items has_end_of_stream) r =
      let (all_sent, l) = send_all items (open_link takes) in
      if all_sent
      then if has_end_of_stream
        then record r {
          inner = as_stream (not_initialized [] has_end_of_stream);
          links = close_link l ∷ r.links;
        }
        else record r {
          inner = as_stream (initialized (some (length r.links)));
          links = l ∷ r.links;
        }
      else record r {
        inner = as_stream (not_initialized [] has_end_of_stream);
        links = close_link l ∷ r.links;
      }
  set_stream_sender takes (initialized existing_sender) r = record r {
    inner = as_stream (initialized (some (length r.links)));
    links = open_link takes ∷ drop_sender existing_sender r.links;
  }

  unfoldable pub set_sender :
      Option ℕ → StreamedRequestInner TItem → StreamedRequest TItem → StreamedRequest TItem
  unfolding set_stream_sender send_all
  set_sender takes (as_vec items) r =
      let (_, l) = send_all items (open_link takes) in record r { links = close_link l ∷ r.links }
  set_sender takes (as_stream state) r = set_stream_sender takes state r

  -- StreamedRequest::get_consumer, with the task that it spawns; `takes` says how long its
  -- receiver lives
  unfoldable pub get_consumer : Option ℕ → StreamedRequest TItem → StreamedRequest TItem
  unfolding set_sender
  get_consumer takes r = set_sender takes r.inner r

  unfoldable pub end_stream : RequestAsStream TItem → StreamedRequest TItem → StreamedRequest TItem
  unfolding drop_sender
  end_stream (not_initialized items has_end_of_stream) r = record r {
    inner = as_stream (not_initialized items true);
  }
  end_stream (initialized sender) r = record r {
    inner = as_stream (initialized none);
    links = drop_sender sender r.links;
  }

  unfoldable pub end_in : StreamedRequestInner TItem → StreamedRequest TItem → StreamedRequest TItem
  unfolding end_stream
  end_in (as_vec items) r = r
  end_in (as_stream state) r = end_stream state r

  -- StreamedRequestInner::send_eof, which the drop of a producer calls
  unfoldable pub send_eof : StreamedRequest TItem → StreamedRequest TItem
  unfolding end_in
  send_eof r = end_in r.inner r

-- What happens to a request, in the order of the mutex. A consumer comes with the items that its
-- receiver takes; `ends` is the drop of a producer.
pub data Event (TItem : Type 0) : Type 0 where
  sends : TItem → Event TItem
  consumes : Option ℕ → Event TItem
  ends : Event TItem

module _ {TItem : Type 0} where
  unfoldable pub step : Event TItem → StreamedRequest TItem → Option (StreamedRequest TItem)
  step (sends item) r = send item r
  step (consumes takes) r = some (get_consumer takes r)
  step ends r = some (send_eof r)

  -- up to the first panic
  unfoldable pub run : List (Event TItem) → StreamedRequest TItem → Option (StreamedRequest TItem)
  run [] r = some r
  run (e ∷ es) r = elim (step e r) [ none ↦ none | some r' ↦ run es r' ]
