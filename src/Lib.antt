-- ===== src/Lib.antt =====
-- Verification library of the IQL client, which evaluates queries over two database systems at once:
-- Postgres for relational tables, through libpqxx, and Rasdaman for arrays, through its client
-- library. A query is parsed into a tree; each node is executed in the system that holds its
-- operands, its result is kept in a temporary table or collection under the node's id, and the root's
-- table is printed, with the arrays that it refers to saved to files.
--
-- Modules and the code that they model, by paths from the repository's root:
--   Table           src/datasources/IqlTable.cpp: the record IqlTable and the methods that read and
--                   change it; Table.Import has its constructors, Table.Print its print, and
--                   Table.Shape, Table.Measure, Table.Edits, Table.Column, Table.Align and
--                   Table.Widths the proofs
--   Postgres        src/datasources/PostgresDS.cpp; proofs in Postgres.Closed, Postgres.Drops and
--                   Postgres.Recovery
--   Rasdaman        src/datasources/RasdamanDS.cpp; proofs in Rasdaman.Closed and Rasdaman.Recovery
--   Source          DbEnum of src/querytree/QtNode.hpp
--   Query           src/querytree: the node classes as one data type. Query.Show has toString,
--                   Query.Source setupDbSource, Query.Leaf, Query.Column, Query.Binary,
--                   Query.Function, Query.Interval, Query.Trim, Query.Join and Query.Items the execute
--                   methods, which Query.Run joins; Query.Select is QtSelectStatement, Query.Files and
--                   Query.Tree are QueryTree; proofs in Query.Names, Query.Registered, Query.Outcome,
--                   Query.Saved and the modules of Query.Invariant and Query.Settled
--   Keyword         src/rasdaman/rqlkwlookup.cpp, and Keyword.Entries rqlkwlist.h; proofs in
--                   Keyword.Order, Keyword.Search and Keyword.Missed
--   App             src/IqlApp.cpp, and exitProgram of src/driver.cpp; proofs in App.Dictionary
--   Driver          src/driver.cpp: readQuery, the signal handler and main; proofs in Driver.Loop,
--                   Driver.Exit, Driver.Session and Driver.Cleanup
--   Str             src/grammar/str.c; proofs in Str.Joined
--   Grammar         the RaSQL productions of src/grammar/parser.yy as data types, and Grammar.Build
--                   their actions; Grammar.Sql, with its Build and Statement, has those of a
--                   SELECT; proofs in Grammar.Fresh, Grammar.Sql.Fresh and Grammar.Sql.Same, over
--                   Grammar.Numbers
--   Protocol        an abstract session of the two systems, which the requests of the client have to
--                   follow; its modules go through the client from the single requests to whole
--                   statements
--   Registry        conditions on the registries of temporary tables that survive new entries
--   Logger          formatClassName of src/logger.cpp; proofs in Logger.Name
--   Base, Text, Fault, Exec   what they share: lists over native numbers, std::string as lists of
--                   bytes, exceptions, and the state with the actions over it
--
-- A method is an action of Exec: from a World, which holds the fields of the client's objects, to a
-- value or a fault, and the World as it was left. A fault is one of the exceptions that the code tells
-- apart, or `crash`, for a null pointer that is followed or a read outside a vector. Fields of query
-- nodes that change during execution are functions of the number in the node's id. The two servers,
-- the disk and what the platform decides are the record Backend: their answers, and which calls fail, are functions of every
-- request so far, and no theorem assumes more of them than its hypotheses say. A start that is tried
-- again makes new data sources; what the first had open stays so, out of the program's reach.
--
-- What holds of every query node is proved once: Query.Invariant is an interface of laws for the
-- requests and assignments that nodes make, Query.Invariant.Parts derives it from laws for the steps
-- of these requests, and the other modules of Query.Invariant prove that each node keeps any such
-- invariant. Query.Settled, Protocol and Registry are instances. In the driver, a call of the parser
-- is given by its outcome: the statements that it submits, the texts that it leaves in yytext and
-- hqlQueries, and the errors that it counts.
--
-- Positions in texts are the 64-bit size_t, with npos and the wrap-around of differences written out;
-- row and column numbers are natural numbers. The only fuel is that of the keyword search: one more
-- than the entries of the table, which is enough since each round removes an entry from the range.
--
-- Not modelled: the lexer of src/grammar, an adapted copy of PostgreSQL's, and how Bison finds a parse
-- tree; of a SELECT, CASE and the functions with a syntax of their own, which become one text, and set
-- operations, ORDER BY and LIMIT, which only change the text of the query; src/postgres, a copy of
-- PostgreSQL's files; log output and the debug print of trees; the bytes of array files; the destructors; and
-- src/datasources/test.cpp.
pub mod Base
pub mod Text
pub mod Fault
pub mod Table
pub mod Source
pub mod Exec
pub mod Postgres
pub mod Rasdaman
pub mod Query
pub mod Keyword
pub mod App
pub mod Logger
pub mod Driver
pub mod Str
pub mod Grammar
pub mod Registry
pub mod Protocol
