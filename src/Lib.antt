-- ===== src/Lib.antt =====
-- The C++ golf card game of the repository, with its store, its service and the cards it is played
-- with, and the two exercises beside it.
--
-- A game of golf is a value: a draw pile, a discard pile, up to five players with four cards each,
-- whose turn it is and who has knocked. Its moves return the next game or an error. A game manager
-- takes the users' requests, has a store read the game, applies the move and has the store write the
-- game back. The store is an interface: one implementation keeps everything in memory, the other in
-- documents of a remote database.
--
-- The files, and the code that they model:
--
--   Base and its children: text, lists, dictionaries and the machine's ints, which the others share.
--   Absl: absl::Status and absl::StatusOr, and how a call can end outside them, in a fault: an
--     exception that nothing catches, or undefined behaviour.
--   Cards (cpp/cards/card.h); Cards/Mapper (cpp/cards/card_mapper.cc).
--   Golf/Player (cpp/cards/golf/player.h and player.cc).
--   Golf/GameState (cpp/cards/golf/game_state.h and game_state.cc): a record with the fields of the
--     class and a function for each of its methods. Golf/GameState/Valid has the invariant, Rules the
--     rules of the game as a relation between states, Turns and Ending the course of a game, Seats by
--     which seat a user is known.
--   Golf/GameStore (cpp/cards/golf/game_store.h): the interface as a record of operations on a type of
--     states; Golf/GameStore/Safe has the laws that the manager relies on.
--   Golf/InMemoryGameStore (cpp/cards/golf/in_memory_game_store.h and in_memory_game_store.cc);
--     Golf/InMemoryGameStore/Contract has what it promises, said of functions.
--   DocDbClient (cpp/doc_db_client/doc_db_client.h and doc_db_client.cc), over the service's stub;
--     DocDbClient/Demo (cpp/doc_db_client/doc_db_demo.cc) is a program that calls it.
--   GrpcServices (cpp/golf_grpc_service/golf_grpc_service.cc and main.cc, and
--     cpp/example_service/example_service.cc): the methods, which do little, and the start of a server;
--     GrpcServices/Greeter (cpp/example_service/main.cc) is the start of the other one.
--   SoLeet (cpp/so_leet/so_leet.cc): two functions on lists of ints.
--   Golf/DocDbGameStore (cpp/cards/golf/doc_db_game_store.h and doc_db_game_store.cc);
--     Golf/DocDbGameStore/Proto has its conversions and the messages of protos/golf/golf_model.proto,
--     Reliable what is asked of the database and of protobuf, Safety that the store then has the laws
--     that the manager relies on, and Turns whose moves get through.
--   Golf/StateMapper (cpp/golf_service/game_state_mapper.cc): what a user is shown of a game.
--   Golf/Deal (the dealing and the joining of cpp/cards/golf/game_manager.cc) and Golf/GameManager (the
--     rest of it), over any store; Golf/GameManager/System runs requests one after another, and
--     Golf/GameManager/Refusals has the moves that no user can make, and Golf/GameManager/Frozen the games
--     that no request changes any more. Golf/InMemoryGameStore/Unordered and Golf/GameManager/Unordered
--     are about stores that differ in the order of what they hold.
--   Golf/Service (cpp/golf_service/handlers.h): the connections of the users and what went out;
--     Golf/Service/Handlers (cpp/golf_service/handlers.cc): a handler for each kind of message, over any
--     store; Golf/Service/Router (cpp/golf_service/router.cc): the events of a connection, and runs of
--     them. Invariant has what holds between two events, Answers what a message can be answered by,
--     Safety that each handler keeps and answers so and which events it takes in what order, InMemory and
--     OnDocuments the service from its start on the one store and on the other, which is the one that
--     cpp/golf_service/Main.cc starts; Guard, Telling, Closing, Reused and Missing are about whose messages
--     are heeded, who is told of a game, a connection that is gone, one whose address is used again, and
--     one that is not there.
--
-- A method is a function of the same name in snake case. A method of the manager has the name with
-- manager_ in front where the game has a method of that name. A method that changes its object takes
-- the state and returns it changed. An int of 32 bits is an integer: the operations that could leave
-- its range are undefined there, and a conversion to size_t or back is written out. The deques and
-- vectors are lists, front first; the unordered sets and maps are lists in order of insertion, an
-- order that no statement depends on but those on the lists that a call returns. No function needs
-- fuel: every loop of the code runs over a list or counts down.
--
-- Not modelled: what std::shuffle does, which is a parameter, assumed to return the same cards in some
-- order; the mutexes of the store, of which each method holds one throughout, so that a method is one
-- step; the pointers to games, which are never written through; the remote database and protobuf's
-- serialization, which are parameters; the opening of the websocket service's port; what gRPC does with
-- a service once it listens; and the programs of the repository in other languages. Of mongoose, a
-- connection is the address of its mg_connection, whether a URI fits a pattern is a parameter, and a send
-- on a connection that has been closed is undefined. A message is the text that handleMessage makes of
-- its buffer.
pub mod Base
pub mod Absl
pub mod Cards
pub mod Golf
pub mod DocDbClient
pub mod GrpcServices
pub mod SoLeet
