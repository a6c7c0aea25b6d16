-- ===== src/Framework/Epoll/Rounds.antt =====
-- The calls of CEpoll::exec leave the set of watched objects alone.
use smart_net.Base.{ℕ, List, [], ◌∷◌, ◌≡◌, refl, ◌∙◌, arith}
use smart_net.Framework.IoObj.{IoObjs}
use smart_net.Framework.Epoll.{Epoll, Call, Ask, add_ioobj, del_ioobj, serve, serve_all, call}

module _ (objs : IoObjs) where
  add_ioobj_keeps : (i : ℕ) (e : Epoll) → ((add_ioobj objs i e).1).io_objs ≡ e.io_objs
  unfolding add_ioobj
  add_ioobj_keeps i e = ground arith

  del_ioobj_keeps : (i : ℕ) (e : Epoll) → ((del_ioobj objs i e).1).io_objs ≡ e.io_objs
  unfolding del_ioobj
  del_ioobj_keeps i e = ground arith

  serve_keeps : (a : Ask) (e : Epoll) → (serve objs a e).io_objs ≡ e.io_objs
  serve_keeps (Ask.ask_add i) e = add_ioobj_keeps i e
  serve_keeps (Ask.ask_del i) e = del_ioobj_keeps i e

  serve_all_keeps : (l : List Ask) (e : Epoll) → (serve_all objs l e).io_objs ≡ e.io_objs
  unfolding serve_all
  serve_all_keeps [] e = refl
  serve_all_keeps (a ∷ l) e = serve_all_keeps l (serve objs a e) ∙ serve_keeps a e

  module _ {W : Type 0} (client : Call → W → W × List Ask) where
    pub call_keeps : (c : Call) (s : W × Epoll) → ((call objs client c s).1).io_objs ≡ (s.1).io_objs
    unfolding call
    call_keeps c (w, e) = serve_all_keeps ((client c w).1) e
